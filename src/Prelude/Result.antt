-- ===== src/Prelude/Result.antt =====
-- A Go result with an `error`: one or the other.
use mathlib.Core.Path.{◌≡◌, refl}
use mathlib.Core.Option.{Option, none, some}
use mathlib.Core.Bool.{Bool, true, false}

pub data Result (E A : Type 0) : Type 0 where
  err : E → Result E A
  ok : A → Result E A

-- `if !test { return e }`
abbrev pub guard : {E : Type 0} → E → Bool → Result E (Unit {0})
guard e false = err e
guard e true = ok tt

-- `if err != nil { return e }`
abbrev pub or_err : {E A : Type 0} → E → Option A → Result E A
or_err e none = err e
or_err e (some a) = ok a

infixl 5 ◌>>=◌ ◌>>◌
-- An error passes over what follows it.
abbrev pub ◌>>=◌ : {E A B : Type 0} → Result E A → (A → Result E B) → Result E B
err failure >>= next = err failure
ok value >>= next = next value

abbrev pub ◌>>◌ : {E A B : Type 0} → Result E A → Result E B → Result E B
first >> second = first >>= (λ ignored. second)

-- Inversions of a chain that succeeded.
pub >>=-eq-ok :
    {E A B : Type 0} (first : Result E A) (next : A → Result E B) {last : B}
    → (first >>= next) ≡ ok last
    → (between : A) × (first ≡ ok between) × (next between ≡ ok last)
>>=-eq-ok (err problem) next h = cc
>>=-eq-ok (ok between) next h = (between, refl, h)

pub or_err-eq-ok : {E A : Type 0} (e : E) (o : Option A) {a : A} → or_err e o ≡ ok a → o ≡ some a
or_err-eq-ok e none h = cc
or_err-eq-ok e (some a) h = cc

pub guard-eq-ok : {E : Type 0} (e : E) (b : Bool) {u : Unit} → guard e b ≡ ok u → b ≡ true
guard-eq-ok e true h = refl
guard-eq-ok e false h = cc

-- What follows a check, case by case.
pub or_err-cases :
    {E A B : Type 0} (P : Result E B → Type 0) (e : E) (o : Option A) (f : A → Result E B)
    → P (err e)
    → ((a : A) → o ≡ some a → P (f a))
    → P (or_err e o >>= f)
or_err-cases P e none f pe pf = pe
or_err-cases P e (some a) f pe pf = pf a refl

pub guard-cases :
    {E B : Type 0} (P : Result E B → Type 0) (e : E) (b : Bool) (m : Result E B)
    → P (err e)
    → (b ≡ true → P m)
    → P (guard e b >> m)
guard-cases P e true m pe pf = pf refl
guard-cases P e false m pe pf = pe
