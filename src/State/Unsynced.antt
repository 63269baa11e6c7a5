-- ===== src/State/Unsynced.antt =====
-- An `Unprepare` that cannot write the checkpoint, and the `Prepare` that follows on it.
use dra_example_driver.Common.{
  ◌≡◌, refl, ap, ◌≢◌, true, String, Option, none, some, List, [], ◌∷◌, ◌++◌, Text, if◌then◌else◌,
  map, arith, nat_eq, list_eq,
}
use dra_example_driver.Common.Dict.{lookup}
use dra_example_driver.Failure.{ok, err, failure, wrap, describe}
use dra_example_driver.Api.{ResourceClaim}
use dra_example_driver.Cdi.ClaimSpec.{spec_name, delete_claim_spec_file}
use dra_example_driver.Checkpoint.{PreparedClaim, Checkpoint, find_claim, has_claim, request_of}
use dra_example_driver.CheckpointFile.{write_checkpoint}
use dra_example_driver.CheckpointFile.Read.{stored, read_checkpoint_granted}
use dra_example_driver.ClaimDir.{claim_dir, delete_claim_directory}
use dra_example_driver.Compute.{MapOrder}
use dra_example_driver.Devices.{DeviceState, PreparedDevice, get_devices}
use dra_example_driver.Paths.{FilePath}
use dra_example_driver.World.{Host, World}
use dra_example_driver.World.Files.{remove_all, drop_below}
use dra_example_driver.World.Keeps.{attempt_granted, attempt_refused}
use dra_example_driver.State.Defs.{
  delete_directories, unprepare_devices, unprepare, compute, prepare,
}
use dra_example_driver.State.Idempotent.{prepare_recorded}
use dra_example_driver.State.Removed.{removed, lookup-removed, is_recorded}

found-has_claim :
    (uid : Text) (cs : List PreparedClaim) (pc : PreparedClaim)
    → find_claim uid cs ≡ some pc
    → has_claim uid (record { prepared_claims = cs }) ≡ true
unfolding has_claim find_claim
found-has_claim uid [] pc e = cc
found-has_claim uid (c ∷ cs) pc e = ground (arith, found-has_claim uid cs pc)

-- The system calls of a list of devices are granted, and then come these.
abbrev pub granted : {A : Type 0} → List A → List (Option String) → List (Option String)
granted xs fs = map (λ x. none) xs ++ fs

module _ (H : Host) (s : DeviceState H.Payload H.Status) where
  delete_directories-granted :
      (c : PreparedClaim) (devices : List Text) (fs : List (Option String)) (w : World H)
      → w.faults ≡ granted devices fs
      → delete_directories H s c devices w
        ≡ (ok tt, record w { tree = removed c devices w.tree; faults = fs })
  unfolding delete_directories delete_claim_directory remove_all removed
  delete_directories-granted c [] fs w all = ap (λ f. (ok tt, record w { faults = f })) all
  delete_directories-granted c (device ∷ devices) fs w all =
      rw (attempt_granted w (granted devices fs) all) (
        delete_directories-granted c devices fs
          (record w {
            tree = drop_below (claim_dir c.name (request_of c device)) w.tree;
            faults = granted devices fs;
          })
          refl)

  -- If the system call that makes the temporary file of the checkpoint fails in `Unprepare`, and those
  -- before it do not, then the directories and the CDI spec of the claim are removed, while the claim
  -- stays in the checkpoint; and a `Prepare` that follows returns the devices of the claim and changes
  -- nothing: it makes neither the directories nor the spec again.
  pub unprepare_unsynced :
      (order : MapOrder H.Payload) (claim : ResourceClaim) (w : World H) (c : Checkpoint)
      (pc : PreparedClaim) (cache : H.Cache) (pds : List PreparedDevice) (message : String)
      → w.faults ≡ none ∷ granted pc.devices (some message ∷ [])
      → stored H w.checkpoint_file ≡ ok c
      → find_claim claim.uid c.prepared_claims ≡ some pc
      → H.remove_spec (spec_name H s.cdi claim.uid) w.cache ≡ ok cache
      → compute H s order claim ≡ ok pds
      → pds ≢ []
      → (w' : World H) × (unprepare H s claim.uid w ≡ (
        err (describe "unable to sync to checkpoint" (wrap "create temp file" (failure message))),
        w',
      ))
        × (w'.cache ≡ cache)
        × ((q : FilePath)
            → lookup q w'.tree ≡ (if is_recorded (some pc) q then none else lookup q w.tree))
        × (prepare H s order claim w' ≡ (ok (get_devices pds), w'))
  unfolding unprepare unprepare_devices write_checkpoint delete_claim_spec_file
  unprepare_unsynced order claim w c pc cache pds message faults at found gone computed nonempty =
      let w' = record w { tree = removed pc pc.devices w.tree; cache = cache; faults = [] } in
      (
        w',
        rw
            (
              read_checkpoint_granted H w _ faults,
              at,
              found,
              delete_directories-granted pc pc.devices (some message ∷ [])
                  (record w { faults = granted pc.devices (some message ∷ []) }) refl,
              gone,
              attempt_refused
                  (record w {
                    tree = removed pc pc.devices w.tree;
                    cache = cache;
                    faults = some message ∷ [];
                  })
                  message [] refl,
            )
            refl,
        refl,
        lookup-removed pc pc.devices w.tree,
        prepare_recorded H s order claim w' c pds refl at
            (found-has_claim claim.uid c.prepared_claims pc found) computed nonempty,
      )
