-- ===== src/Broker/Output/Sound.antt =====
-- Reading a run's output keeps the broker sound.
use corv_client.Prelude.{Bytes, Option, none, some}
use corv_client.Broker.Errors.{Failure}
use corv_client.Broker.State.{World}
use corv_client.Broker.Keeps.{Keeps, keeps_rules}
use corv_client.Broker.Reply.{Response}
use corv_client.Broker.Output.{
  ReadRun, read_run, no_file, unreadable, read_log, read_meta, output_log, output_finalized,
  output_first, output_paths, output,
}
use corv_client.Broker.Finalize.Sound.{Keeps-finalize_output}

module _ ⦃w : World⦄ where
  Keeps-read_log : (id : Bytes) → Keeps (read_log id)
  unfolding read_log
  Keeps-read_log id = search keeps_rules

  Keeps-read_meta : (id : Bytes) → Keeps (read_meta id)
  unfolding read_meta
  Keeps-read_meta id = search keeps_rules

  Keeps-output_log : (id pattern : Bytes) (l : ReadRun Bytes) → Keeps (output_log id pattern l)
  unfolding output_log
  Keeps-output_log id pattern no_file = search keeps_rules
  Keeps-output_log id pattern (unreadable f) = search keeps_rules
  Keeps-output_log id pattern (read_run b) = search (keeps_rules, Keeps-read_meta)

  Keeps-output_finalized :
      (id pattern : Bytes) (o : Option Response) → Keeps (output_finalized id pattern o)
  unfolding output_finalized
  Keeps-output_finalized id pattern none = search (keeps_rules, Keeps-read_log, Keeps-output_log)
  Keeps-output_finalized id pattern (some x) = search keeps_rules

  Keeps-output_first : (id pattern : Bytes) (l : ReadRun Bytes) → Keeps (output_first id pattern l)
  unfolding output_first
  Keeps-output_first id pattern no_file =
      search (keeps_rules, Keeps-finalize_output, Keeps-output_finalized)
  Keeps-output_first id pattern (unreadable f) = Keeps-output_log id pattern (unreadable f)
  Keeps-output_first id pattern (read_run b) = Keeps-output_log id pattern (read_run b)

  Keeps-output_paths : (id pattern : Bytes) (o : Option Failure) → Keeps (output_paths id pattern o)
  unfolding output_paths
  Keeps-output_paths id pattern none = search (keeps_rules, Keeps-read_log, Keeps-output_first)
  Keeps-output_paths id pattern (some f) = search keeps_rules

  pub Keeps-output : (id pattern : Bytes) → Keeps (output id pattern)
  unfolding output
  Keeps-output id pattern = search (keeps_rules, Keeps-output_paths)
