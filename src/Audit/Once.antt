-- ===== src/Audit/Once.antt =====
-- internal/audit/audit.go: two calls of `Complete` for one run.
use corv_client.Prelude.{
  ℕ, ◌+◌, ◌≤◌, ◌<◌, ◌≡◌, ◌≢◌, refl, sym, ap, subst, ◌∙◌, Bool, true, false, ◌&&◌, ◌||◌, List, [],
  ◌∷◌, ◌++◌, append_assoc, Bytes, codes, Option, none, some, arith, All, ltb, is_empty, bytes_eq,
  bytes_eq→eq, bytes_eq_self, take, drop, length, inl, inr, Bool-cases, Option-cases,
}
use corv_client.Prelude.Int.{pos, eq_ℤ}
use corv_client.Prelude.Result.{Result, ok}
use corv_client.Audit.{
  Entry, Codec, entry_line, decode_entry, truncate_field, max_logged_field, trim_suffix,
}
use corv_client.Audit.Scan.{ReadError, ReadAt, visit_entry}
use corv_client.Audit.Lines.{
  visit_lines, lines_back, lines_back-append, visit_whole, visit_lines-more, visit_lines-enough,
}
use corv_client.Audit.Reverse.{scan_entries_reverse-lines}
use corv_client.Audit.Complete.{
  Log, Outcome, find_started, completed, append, append_completed, started_in, complete,
}

-- The entry that `append` stores.
unfoldable pub stored : Entry → Entry
stored e = record e {
  command = truncate_field e.command max_logged_field;
  error = truncate_field e.error max_logged_field;
}

-- A line that the codec writes for an entry is within the limit and reads back as the entry.
pub record IsReadable (codec : Codec) (max_line : ℕ) (e : Entry) : Type 0 where
  pub in_limit : length (codec.marshal e) ≤ max_line
  pub decoded : decode_entry ⦃codec = codec⦄ (codec.marshal e) ≡ some e

module _ ⦃codec : Codec⦄ (max_line block_size : ℕ) (reader : Bytes → ReadAt)
    (one_line : (e : Entry) → All (λ c. c ≢ 10) (codec.marshal e)) (sized : 0 < block_size)
    (reads : (c : Bytes) (at n : ℕ)
      → at + n ≤ length c
      → reader c at n ≡ some (take n (drop at c))) where
  started_in-lines :
      (run_id content : Bytes)
      → started_in max_line block_size reader run_id content
        ≡ ok (visit_lines max_line (find_started run_id) (lines_back content) none).0
  started_in-lines run_id content =
      scan_entries_reverse-lines max_line (find_started run_id) block_size (reader content) content
        sized (reads content) none

  find_started-completed :
      (o : Outcome) (e : Entry)
      → e.run_id ≡ o.run_id
      → find_started o.run_id (stored (completed o e)) none ≡ (none, false)
  unfolding find_started stored completed
  find_started-completed o e same = rw (same, bytes_eq_self o.run_id) refl

  -- An entry that the visitor took is one of the run.
  abbrev IsOfRun : Bytes → Option Entry → Type 0
  IsOfRun run_id none = Unit
  IsOfRun run_id (some e) = e.run_id ≡ run_id

  find_started-IsOfRun :
      (run_id : Bytes) (e : Entry) (s : Option Entry)
      → IsOfRun run_id s
      → IsOfRun run_id (find_started run_id e s).0
  unfolding find_started
  find_started-IsOfRun run_id e s h = elim (Bool-cases (bytes_eq e.run_id run_id)) [
    | inr other ↦ rw other h
    | inl same ↦ elim (Bool-cases (bytes_eq e.status (codes "completed"))) [
      | inl ended ↦ rw (same, ended) h
      | inr open_run ↦
          elim (Bool-cases (
            bytes_eq e.status (codes "running")
            || (is_empty e.status && eq_ℤ e.exit_code (pos 75)))) [
              | inl started ↦ rw (same, open_run, started) (bytes_eq→eq e.run_id run_id same)
              | inr neither ↦ rw (same, open_run, neither) h
            ]
    ]
  ]

  visit_entry-IsOfRun :
      (run_id : Bytes) (o : Option Entry) (s : Option Entry)
      → IsOfRun run_id s
      → IsOfRun run_id (visit_entry max_line (find_started run_id) o s).0
  visit_entry-IsOfRun run_id none s h = h
  visit_entry-IsOfRun run_id (some e) s h = find_started-IsOfRun run_id e s h

  visit_whole-IsOfRun :
      (run_id line : Bytes) (s : Option Entry)
      → IsOfRun run_id s
      → IsOfRun run_id (visit_whole max_line (find_started run_id) line s).0
  visit_whole-IsOfRun run_id line s h = elim (Bool-cases (ltb max_line (length line))) [
    | inl long ↦ rw long h
    | inr short ↦ rw short (visit_entry-IsOfRun run_id (decode_entry line) s h)
  ]

  visit_lines-IsOfRun :
      (run_id : Bytes) (lines : List Bytes) (s : Option Entry)
      → IsOfRun run_id s
      → IsOfRun run_id (visit_lines max_line (find_started run_id) lines s).0
  unfolding visit_lines
  visit_lines-IsOfRun run_id [] s h = h
  visit_lines-IsOfRun run_id (line ∷ lines) s h =
      let step = visit_whole max_line (find_started run_id) line s in
      let kept = visit_whole-IsOfRun run_id line s h in
      elim (Bool-cases step.1) [
        | inl more ↦ rw more (visit_lines-IsOfRun run_id lines step.0 kept)
        | inr enough ↦ rw enough kept
      ]

  entry_line-eq : (e : Entry) → entry_line e ≡ codec.marshal (stored e) ++ 10 ∷ []
  unfolding entry_line stored
  entry_line-eq e = refl

  visit_empty : (run_id : Bytes) → visit_whole max_line (find_started run_id) [] none ≡ (none, true)
  visit_empty run_id =
      let nothing : decode_entry [] ≡ none = unfold decode_entry trim_suffix in refl in
      let fits : ltb max_line 0 ≡ false = ground arith in rw (fits, nothing) refl

  visit_completed :
      (o : Outcome) (e : Entry)
      → e.run_id ≡ o.run_id
      → IsReadable codec max_line (stored (completed o e))
      → visit_whole max_line (find_started o.run_id) (codec.marshal (stored (completed o e))) none
        ≡ (none, false)
  visit_completed o e same r =
      let line = codec.marshal (stored (completed o e)) in
      let small = r.in_limit in
      let fits : ltb max_line (length line) ≡ false = ground arith in
      rw (fits, r.decoded) (find_started-completed o e same)

  -- Behind the entry that `Complete` appends, the scan finds nothing to complete.
  completed_last :
      (o : Outcome) (d : Bytes) (e : Entry)
      → e.run_id ≡ o.run_id
      → IsReadable codec max_line (stored (completed o e))
      → started_in max_line block_size reader o.run_id
          ((d ++ 10 ∷ []) ++ entry_line (completed o e))
        ≡ ok none
  completed_last o d e same r =
      let m = codec.marshal (stored (completed o e)) in
      let seen = visit_lines max_line (find_started o.run_id) in
      let shape : (d ++ 10 ∷ []) ++ (m ++ 10 ∷ []) ≡ (d ++ 10 ∷ m) ++ 10 ∷ [] =
        append_assoc d (10 ∷ []) (m ++ 10 ∷ []) ∙ sym (append_assoc d (10 ∷ m) (10 ∷ [])) in
      let plain = one_line (stored (completed o e)) in
      let lines : lines_back ((d ++ 10 ∷ m) ++ 10 ∷ []) ≡ [] ∷ (m ∷ lines_back d) =
        lines_back-append (d ++ 10 ∷ m) [] tt
        ∙ ap (λ (ls : List Bytes). [] ∷ ls) (lines_back-append d m plain) in
      let empty_line : visit_whole max_line (find_started o.run_id) [] none ≡ (none, true) =
        visit_empty o.run_id in
      let this_line : visit_whole max_line (find_started o.run_id) m none ≡ (none, false) =
        visit_completed o e same r in
      started_in-lines o.run_id ((d ++ 10 ∷ []) ++ entry_line (completed o e))
      ∙ ap (λ (c : Bytes). ok (seen (lines_back c) none).0)
          (ap (λ (c : Bytes). (d ++ 10 ∷ []) ++ c) (entry_line-eq (completed o e)) ∙ shape)
      ∙ ap (λ (ls : List Bytes). ok (seen ls none).0) lines
      ∙ ap (λ (x : Option Entry × Bool). ok x.0)
          (visit_lines-more max_line (find_started o.run_id) [] (m ∷ lines_back d) none none
              empty_line
            ∙ visit_lines-enough max_line (find_started o.run_id) m (lines_back d) none none
                this_line)

  abbrev complete_of : Outcome → Log → Result ReadError Log
  complete_of = complete max_line block_size reader

  complete_open :
      (o : Outcome) (c : Bytes) (found : Option Entry)
      → is_empty o.run_id ≡ false
      → started_in max_line block_size reader o.run_id c ≡ ok found
      → complete_of o (some c) ≡ append_completed o (some c) (ok found)
  unfolding complete
  complete_open o c found run e = rw (run, e) refl

  complete_anonymous :
      (o : Outcome) (c : Bytes) → is_empty o.run_id ≡ true → complete_of o (some c) ≡ ok (some c)
  unfolding complete
  complete_anonymous o c e = rw e refl

  -- The log that a first call left as it was, another one leaves too.
  complete_unchanged :
      (o o' : Outcome) (c : Bytes) (log : Log)
      → complete_of o (some c) ≡ ok (some c)
      → complete_of o' (some c) ≡ ok (some c)
      → complete_of o (some c) ≡ ok log
      → complete_of o' log ≡ ok log
  complete_unchanged o o' c log first second h =
      let e : some c ≡ log = cc (first, h) in subst (λ (l : Log). complete_of o' l ≡ ok l) e second

  complete_appended :
      (o o' : Outcome) (d : Bytes) (e : Entry) (log : Log)
      → o'.run_id ≡ o.run_id
      → is_empty o'.run_id ≡ false
      → e.run_id ≡ o.run_id
      → IsReadable codec max_line (stored (completed o e))
      → append_completed o (some (d ++ 10 ∷ [])) (ok (some e)) ≡ ok log
      → complete_of o' log ≡ ok log
  complete_appended o o' d e log run_id run same r h =
      let c = (d ++ 10 ∷ []) ++ entry_line (completed o e) in
      let shape : append (completed o e) (some (d ++ 10 ∷ [])) ≡ some c = unfold append in refl in
      let there : some c ≡ log = cc (shape, h) in
      let closed =
        subst (λ (id : Bytes). started_in max_line block_size reader id c ≡ ok none) (sym run_id)
          (completed_last o d e same r) in
      subst (λ (l : Log). complete_of o' l ≡ ok l) there (complete_open o' c none run closed)

  -- A run whose completion was recorded is not completed again: the second of two calls of `Complete`
  -- for the same run, whatever times, exit code and duration it is given, leaves the log as the first
  -- one left it. The log ends in a line feed; blocks have a byte at least, reads return what is in the
  -- file, an entry is written without a line feed, and the entry that the first call writes, if it
  -- writes one, is within the limit and reads back as it was written.
  pub complete_once :
      (o o' : Outcome) (d : Bytes) (log : Log)
      → o'.run_id ≡ o.run_id
      → ((e : Entry)
          → started_in max_line block_size reader o.run_id (d ++ 10 ∷ []) ≡ ok (some e)
          → IsReadable codec max_line (stored (completed o e)))
      → complete max_line block_size reader o (some (d ++ 10 ∷ [])) ≡ ok log
      → complete max_line block_size reader o' log ≡ ok log
  complete_once o o' d log run_id readable h =
      let c = d ++ 10 ∷ [] in
      let seen = (visit_lines max_line (find_started o.run_id) (lines_back c) none).0 in
      elim (Bool-cases (is_empty o.run_id)) [
        | inl nothing ↦
            let nothing' : is_empty o'.run_id ≡ true =
              ap (λ (x : Bytes). is_empty x) run_id ∙ nothing in
            complete_unchanged o o' c log (complete_anonymous o c nothing)
              (complete_anonymous o' c nothing') h
        | inr run ↦
            let run' : is_empty o'.run_id ≡ false = ap (λ (x : Bytes). is_empty x) run_id ∙ run in
            elim (Option-cases seen) [
              | inl closed ↦
                  let found = started_in-lines o.run_id c ∙ ap ok closed in
                  let found' =
                    subst (λ (id : Bytes). started_in max_line block_size reader id c ≡ ok none)
                      (sym run_id) found in
                  complete_unchanged o o' c log (complete_open o c none run found)
                    (complete_open o' c none run' found') h
              | inr (e, open_run) ↦
                  let found = started_in-lines o.run_id c ∙ ap ok open_run in
                  let same =
                    subst (IsOfRun o.run_id) open_run
                      (visit_lines-IsOfRun o.run_id (lines_back c) none tt) in
                  complete_appended o o' d e log run_id run' same (readable e found)
                    (sym (complete_open o c (some e) run found) ∙ h)
            ]
      ]
