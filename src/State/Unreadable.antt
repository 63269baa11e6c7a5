-- ===== src/State/Unreadable.antt =====
-- `Unprepare` when the checkpoint file cannot be decoded.
use dra_example_driver.Common.{◌≡◌, refl, some, [], Text}
use dra_example_driver.Failure.{Error, err, ok, panicked}
use dra_example_driver.Devices.{DeviceState}
use dra_example_driver.Checkpoint.{new_checkpoint}
use dra_example_driver.Checkpoint.V1.{to_v1}
use dra_example_driver.CheckpointFile.Read.{stored, read_checkpoint_calm}
use dra_example_driver.CheckpointFile.RoundTrip.{write_checkpoint_calm}
use dra_example_driver.World.{Host, World}
use dra_example_driver.State.Defs.{unprepare}

module _ (H : Host) (s : DeviceState H.Payload H.Status) (claim_uid : Text) where
  -- If the checkpoint file cannot be decoded, and no system call fails, then `Unprepare` puts an empty
  -- checkpoint in its place and panics on the checkpoint that it did not read.
  pub unprepare_unreadable :
      (w : World H) (e : Error) (b : H.Blob)
      → w.faults ≡ []
      → stored H w.checkpoint_file ≡ err e
      → H.encode_checkpoint (to_v1 new_checkpoint) ≡ ok b
      → unprepare H s claim_uid w ≡ (panicked, record w { checkpoint_file = some b })
  unfolding unprepare
  unprepare_unreadable w e b calm at encoded =
      rw
        (read_checkpoint_calm H w calm, at, write_checkpoint_calm H new_checkpoint w b calm encoded)
        refl
