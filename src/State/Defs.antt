-- ===== src/State/Defs.antt =====
-- `Prepare`, `Unprepare`, `prepareDevices`, `unprepareDevices` and `restoreClaimFromCheckpoint`.
use dra_example_driver.Common.{
  Option, none, some, List, [], ◌∷◌, Text, ◌==◌, nat_eq, list_eq, if◌then◌else◌,
}
use dra_example_driver.Failure.{Outcome, ok, err, panicked, wrap, describe, map_error}
use dra_example_driver.Failure.Action.{Action, pure, panic, lift, on_error, try, ◌>>=◌, ◌>>◌}
use dra_example_driver.Api.{DeviceResult, Allocation, ResourceClaim, Device}
use dra_example_driver.Devices.{PreparedDevice, DeviceState, get_devices}
use dra_example_driver.Compute.{MapOrder, compute_device_config}
use dra_example_driver.Checkpoint.{
  PreparedClaim, Checkpoint, new_checkpoint, add_claim_to_checkpoint, remove_claim_from_checkpoint,
  has_claim, find_claim, request_of,
}
use dra_example_driver.CheckpointFile.{read_checkpoint, write_checkpoint}
use dra_example_driver.ClaimDir.{create_claim_directory, delete_claim_directory}
use dra_example_driver.Cdi.ClaimSpec.{create_claim_spec_file, delete_claim_spec_file}
use dra_example_driver.World.{Host, World}
use dra_example_driver.State.Publish.{publish}

module _ (H : Host) (s : DeviceState H.Payload H.Status) where
  -- The first loop of `prepareDevices`.
  unfoldable pub create_directories :
      ResourceClaim → List DeviceResult → Action (World H) (Unit {0})
  create_directories claim [] = pure tt
  create_directories claim (r ∷ rs) = do
    if r.driver == s.driver_name
        then (on_error (wrap "failed to create claim directory")
              (create_claim_directory H claim.name r.request r.device)
            >> pure tt)
        else pure tt
    create_directories claim rs

  abbrev pub compute : MapOrder H.Payload → ResourceClaim → Outcome (List PreparedDevice)
  compute order claim = compute_device_config H.decode_config H.qualified_name s order claim

  -- The body of `prepareDevices`. The allocation is dereferenced before anything tests it.
  abbrev pub prepare_allocated :
      MapOrder H.Payload
      → ResourceClaim
      → Option Allocation
      → Action (World H) (List PreparedDevice)
  prepare_allocated order claim none = panic
  prepare_allocated order claim (some a) = do
    create_directories claim a.results
    pds ← lift (compute order claim)
    publish H s claim a.results
    pure pds

  unfoldable pub prepare_devices :
      MapOrder H.Payload → ResourceClaim → Action (World H) (List PreparedDevice)
  unfolding create_directories
  prepare_devices order claim = prepare_allocated order claim claim.allocation

  -- An empty list stands for nil.
  unfoldable pub restore_claim_from_checkpoint :
      MapOrder H.Payload → Checkpoint → ResourceClaim → Outcome (List PreparedDevice)
  restore_claim_from_checkpoint order checkpoint claim =
      if has_claim claim.uid checkpoint then compute order claim else ok []

  -- The part of `Prepare` that is reached if nothing was restored.
  unfoldable pub prepare_fresh :
      MapOrder H.Payload → ResourceClaim → Checkpoint → Action (World H) (List Device)
  prepare_fresh order claim checkpoint = do
    pds ← on_error (describe "prepare failed") (prepare_devices order claim)
    on_error (describe "unable to create CDI spec file for claim")
        (create_claim_spec_file H s.cdi claim.uid pds)
    on_error (describe "unable to sync to checkpoint")
        (write_checkpoint H (add_claim_to_checkpoint claim checkpoint))
    pure (get_devices pds)

  abbrev pub prepare_restored :
      MapOrder H.Payload
      → ResourceClaim
      → Checkpoint
      → List PreparedDevice
      → Action (World H) (List Device)
  prepare_restored order claim checkpoint [] = prepare_fresh order claim checkpoint
  prepare_restored order claim checkpoint (pd ∷ pds) = pure (get_devices (pd ∷ pds))

  unfoldable pub prepare : MapOrder H.Payload → ResourceClaim → Action (World H) (List Device)
  unfolding restore_claim_from_checkpoint prepare_fresh
  prepare order claim = do
    checkpoint ← on_error (describe "unable to sync from checkpoint") (read_checkpoint H)
    restored ← lift (
        map_error (describe "unable to restore from checkpoint")
          (restore_claim_from_checkpoint order checkpoint claim))
    prepare_restored order claim checkpoint restored

  -- The loop over `preparedClaim.Devices`. Errors are logged and dropped.
  unfoldable pub delete_directories : PreparedClaim → List Text → Action (World H) (Unit {0})
  delete_directories c [] = pure tt
  delete_directories c (device ∷ devices) = do
    dropped ← try (delete_claim_directory H c.name (request_of c device))
    delete_directories c devices

  abbrev pub delete_found : Option PreparedClaim → Action (World H) (Unit {0})
  delete_found none = pure tt
  delete_found (some c) = delete_directories c c.devices

  -- The checkpoint is `none` for a nil pointer.
  unfoldable pub unprepare_devices : Text → Option Checkpoint → Action (World H) (Unit {0})
  unfolding delete_directories find_claim
  unprepare_devices claim_uid none = panic
  unprepare_devices claim_uid (some c) = delete_found (find_claim claim_uid c.prepared_claims)

  -- If the checkpoint cannot be read, an empty one is written, and the pointer stays nil.
  abbrev pub checkpoint_or_nil : Outcome Checkpoint → Action (World H) (Option Checkpoint)
  checkpoint_or_nil (ok c) = pure (some c)
  checkpoint_or_nil (err e) = do
    on_error (describe "unable to create new checkpoint") (write_checkpoint H new_checkpoint)
    pure none
  checkpoint_or_nil panicked = panic

  abbrev pub remove_from : Text → Option Checkpoint → Action (World H) Checkpoint
  remove_from claim_uid none = panic
  remove_from claim_uid (some c) = pure (remove_claim_from_checkpoint claim_uid c)

  unfoldable pub unprepare : Text → Action (World H) (Unit {0})
  unfolding unprepare_devices
  unprepare claim_uid = do
    read ← try (read_checkpoint H)
    checkpoint ← checkpoint_or_nil read
    on_error (describe "unprepare failed") (unprepare_devices claim_uid checkpoint)
    left ← remove_from claim_uid checkpoint
    on_error (describe "unable to delete CDI spec file for claim")
        (delete_claim_spec_file H s.cdi claim_uid)
    on_error (describe "unable to sync to checkpoint") (write_checkpoint H left)
