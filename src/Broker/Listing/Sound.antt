-- ===== src/Broker/Listing/Sound.antt =====
-- Listing runs keeps the broker sound.
use corv_client.Prelude.{Option, none, some, [], ◌∷◌}
use corv_client.Prelude.Assoc.{Assoc}
use corv_client.Prelude.Result.{Result}
use corv_client.Broker.Errors.{Failure}
use corv_client.Broker.State.{World, RunMetadata}
use corv_client.Broker.Keeps.{Keeps, Keeps-if, Keeps-bind, Keeps-ask, keeps_rules}
use corv_client.Broker.Store.Sound.{store_rules}
use corv_client.Broker.Reply.{RunInfo}
use corv_client.Broker.Listing.{meta_infos, list_metas, list_runs}

module _ ⦃w : World⦄ where
  Keeps-meta_infos :
      (ms : Assoc (Result Failure RunMetadata)) (runs : Assoc RunInfo) → Keeps (meta_infos ms runs)
  unfolding meta_infos
  Keeps-meta_infos [] runs = search keeps_rules
  Keeps-meta_infos ((id, m) ∷ ms) runs =
      Keeps-if _ _ _ (Keeps-bind _ _ (Keeps-ask _ _ _) λ e. Keeps-meta_infos ms _)
        (Keeps-meta_infos ms runs)

  Keeps-list_metas : (runs : Assoc RunInfo) (p d : Option Failure) → Keeps (list_metas runs p d)
  unfolding list_metas
  Keeps-list_metas runs (some f) d = search keeps_rules
  Keeps-list_metas runs none (some f) = search keeps_rules
  Keeps-list_metas runs none none = search (keeps_rules, Keeps-meta_infos)

  pub Keeps-list_runs : Keeps list_runs
  unfolding list_runs
  Keeps-list_runs = search (keeps_rules, store_rules, Keeps-list_metas) depth 9
