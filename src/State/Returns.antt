-- ===== src/State/Returns.antt =====
-- That `Unprepare` returns.
use dra_example_driver.Common.{◌≡◌, refl, none, some, [], Text, if◌then◌else◌, nat_eq, list_eq}
use dra_example_driver.Common.Dict.{lookup}
use dra_example_driver.Failure.{ok}
use dra_example_driver.Cdi.ClaimSpec.{spec_name, delete_claim_spec_file}
use dra_example_driver.Checkpoint.{Checkpoint, find_claim, remove_claim_from_checkpoint}
use dra_example_driver.Checkpoint.V1.{to_v1}
use dra_example_driver.CheckpointFile.Read.{stored, read_checkpoint_calm}
use dra_example_driver.CheckpointFile.RoundTrip.{write_checkpoint_calm}
use dra_example_driver.Devices.{DeviceState}
use dra_example_driver.Paths.{FilePath}
use dra_example_driver.World.{Host, World}
use dra_example_driver.State.Defs.{unprepare_devices, unprepare}
use dra_example_driver.State.Removed.{
  removed_found, lookup-removed_found, delete_found_calm, is_recorded,
}

module _ (H : Host) (s : DeviceState H.Payload H.Status) where
  -- If no system call fails, the checkpoint can be decoded, and without the claim it can be encoded,
  -- and the CDI library removes the spec, then `Unprepare` returns no error, also for a claim that is
  -- not in the checkpoint; the encoded checkpoint is then in the checkpoint file, the spec is out of
  -- the cache, and of the directories just those recorded for the claim are gone.
  pub unprepare_returns :
      (claim_uid : Text) (w : World H) (c : Checkpoint) (cache : H.Cache) (blob : H.Blob)
      → w.faults ≡ []
      → stored H w.checkpoint_file ≡ ok c
      → H.remove_spec (spec_name H s.cdi claim_uid) w.cache ≡ ok cache
      → H.encode_checkpoint (to_v1 (remove_claim_from_checkpoint claim_uid c)) ≡ ok blob
      → (w' : World H) × (unprepare H s claim_uid w ≡ (ok tt, w'))
        × (w'.checkpoint_file ≡ some blob)
        × (w'.cache ≡ cache)
        × ((q : FilePath)
            → lookup q w'.tree ≡ (
                if is_recorded (find_claim claim_uid c.prepared_claims) q
                then none
                else lookup q w.tree))
  unfolding unprepare unprepare_devices delete_claim_spec_file
  unprepare_returns claim_uid w c cache blob calm at gone encoded =
      let found = find_claim claim_uid c.prepared_claims in
      let left = record w { tree = removed_found found w.tree } in
      let cut = record left { cache = cache } in
      (
        record cut { checkpoint_file = some blob },
        rw
            (
              read_checkpoint_calm H w calm,
              at,
              delete_found_calm H s found w calm,
              gone,
              write_checkpoint_calm H (remove_claim_from_checkpoint claim_uid c) cut blob calm
                  encoded,
            )
            refl,
        refl,
        refl,
        lookup-removed_found found w.tree,
      )
