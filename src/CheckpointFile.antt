-- ===== src/CheckpointFile.antt =====
-- `readCheckpoint` and `writeCheckpoint` of cmd/dra-example-kubeletplugin/checkpoint.go. The encoder
-- and the decoder convert between the internal and the v1 type.
pub mod Atomic
pub mod Read
pub mod RoundTrip
use dra_example_driver.Common.{Option, none, some, List, [], ◌∷◌, if◌then◌else◌}
use dra_example_driver.Failure.{
  Error, not_exist, is_not_exist, wrap, Outcome, ok, err, panicked, map_error,
}
use dra_example_driver.Failure.Action.{
  Action, pure, raise, panic, lift, gets, modify, on_error, try, ◌>>=◌, ◌>>◌,
}
use dra_example_driver.Checkpoint.{Checkpoint, new_checkpoint}
use dra_example_driver.Checkpoint.V1
use dra_example_driver.Checkpoint.V1.{from_v1, to_v1}
use dra_example_driver.World.{Host, World, attempt}

abbrev pub from_decoded : Outcome V1.Checkpoint → Outcome Checkpoint
from_decoded (ok c) = ok (from_v1 c)
from_decoded (err e) = err (wrap "unmarshal JSON" e)
from_decoded panicked = panicked

module _ (H : Host) where
  abbrev pub decoded : H.Blob → Outcome Checkpoint
  decoded b = from_decoded (H.decode_checkpoint b)

  abbrev pub content : Option H.Blob → Action (World H) H.Blob
  content none = raise not_exist
  content (some b) = pure b

  -- `os.ReadFile`
  abbrev pub read_file : Action (World H) H.Blob
  read_file = do attempt; found ← gets (λ w. w.checkpoint_file); content found

  -- A file that does not exist is an empty checkpoint.
  abbrev pub decode_read : Outcome H.Blob → Action (World H) Checkpoint
  decode_read (ok b) = lift (decoded b)
  decode_read (err e) = if is_not_exist e then pure new_checkpoint else raise e
  decode_read panicked = panic

  unfoldable pub read_checkpoint : Action (World H) Checkpoint
  read_checkpoint = do r ← try read_file; decode_read r

  abbrev pub push_temp : World H → World H
  push_temp w = record w { temp_files = none ∷ w.temp_files }

  abbrev pub filled : H.Blob → List (Option H.Blob) → List (Option H.Blob)
  filled b [] = []
  filled b (t ∷ temps) = some b ∷ temps

  abbrev pub fill_temp : H.Blob → World H → World H
  fill_temp b w = record w { temp_files = filled b w.temp_files }

  abbrev pub renamed : List (Option H.Blob) → World H → World H
  renamed [] w = w
  renamed (t ∷ temps) w = record w { checkpoint_file = t; temp_files = temps }

  -- `os.Rename` puts the temporary file in the place of the checkpoint file.
  abbrev pub rename_temp : World H → World H
  rename_temp w = renamed w.temp_files w

  -- From the encoding up to the rename.
  abbrev pub write_temp : Checkpoint → Action (World H) (Unit {0})
  write_temp c = do
    b ← lift (map_error (wrap "encode to temp file") (H.encode_checkpoint (to_v1 c)))
    on_error (wrap "encode to temp file") attempt
    modify (fill_temp b)
    on_error (wrap "sync temp file") attempt
    on_error (wrap "rename") attempt
    modify rename_temp

  -- The deferred `Close`, whose error counts if there was none before.
  abbrev pub closed : Outcome (Unit {0}) → Outcome (Unit {0}) → Outcome (Unit {0})
  closed (ok a) c = map_error (wrap "close temp file") c
  closed (err e) c = err e
  closed panicked c = panicked

  abbrev pub then_close : Action (World H) (Unit {0}) → Action (World H) (Unit {0})
  then_close m w = (closed (m w).0 (attempt (m w).1).0, (attempt (m w).1).1)

  unfoldable pub write_checkpoint : Checkpoint → Action (World H) (Unit {0})
  write_checkpoint c = do
    on_error (wrap "create temp file") attempt
    modify push_temp
    then_close (write_temp c)
