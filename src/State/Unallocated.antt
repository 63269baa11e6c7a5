-- ===== src/State/Unallocated.antt =====
-- `Prepare` of a claim without an allocation.
use dra_example_driver.Common.{◌≡◌, refl, false, none, []}
use dra_example_driver.Failure.{ok, panicked}
use dra_example_driver.Api.{ResourceClaim}
use dra_example_driver.Devices.{DeviceState}
use dra_example_driver.Compute.{MapOrder}
use dra_example_driver.Checkpoint.{Checkpoint, has_claim}
use dra_example_driver.CheckpointFile.Read.{stored, read_checkpoint_calm}
use dra_example_driver.World.{Host, World}
use dra_example_driver.State.Defs.{
  prepare_devices, prepare_fresh, restore_claim_from_checkpoint, prepare,
}

module _ (H : Host) (s : DeviceState H.Payload H.Status) (order : MapOrder H.Payload)
    (claim : ResourceClaim) where
  -- If a claim has no allocation and is not in the checkpoint, and no system call fails, then `Prepare`
  -- panics, and nothing has changed.
  pub prepare_unallocated :
      (w : World H) (c : Checkpoint)
      → w.faults ≡ []
      → stored H w.checkpoint_file ≡ ok c
      → has_claim claim.uid c ≡ false
      → claim.allocation ≡ none
      → prepare H s order claim w ≡ (panicked, w)
  unfolding prepare prepare_fresh prepare_devices restore_claim_from_checkpoint
  prepare_unallocated w c calm at new missing =
      rw (read_checkpoint_calm H w calm, at, new, missing) refl
