-- ===== src/Tests/Aftermath.antt =====
-- What calls of `Prepare` and `Unprepare` leave behind, at concrete inputs.
use dra_example_driver.Common.{
  ◌≡◌, ◌≢◌, refl, sym, ◌∙◌, ap, ◌+◌, if◌then◌else◌, not, none, some, [], ◌∷◌, ◌==◌, keep, All,
  nat_eq, list_eq, Text,
}
use dra_example_driver.Common.Dict.{Dict, lookup}
use dra_example_driver.Failure.{ok, err, ok-inj, failure, wrap, describe}
use dra_example_driver.Api.{ResourceClaim, Spec}
use dra_example_driver.Checkpoint.{
  Checkpoint, new_checkpoint, find_claim, prepared_claim, remove_claim_from_checkpoint, has_claim,
}
use dra_example_driver.Checkpoint.V1.{to_v1}
use dra_example_driver.CheckpointFile.{read_checkpoint, write_checkpoint}
use dra_example_driver.CheckpointFile.Read.{stored}
use dra_example_driver.Cdi.ClaimSpec.{
  spec_name, claim_spec, append_cdi_devices, create_claim_spec_file,
}
use dra_example_driver.Cdi.Names.{kind, vendor}
use dra_example_driver.Compute.{
  add_result, apply_configs, check_admin_access, collect_devices, compute_device_config,
  group_results,
}
use dra_example_driver.Config.{
  decode_all, first_applying, get_opaque_device_configs, select, split_sources,
}
use dra_example_driver.Devices.{get_devices}
use dra_example_driver.Paths.{FilePath}
use dra_example_driver.Profile.Network.{apply_config, edits_of, network_profile}
use dra_example_driver.State.{
  compute, prepare, unprepare, prepare_devices, prepare_fresh, create_directories,
  restore_claim_from_checkpoint,
}
use dra_example_driver.State.Publish.{publish}
use dra_example_driver.State.Prepare.{prepare_sound}
use dra_example_driver.State.Removed.{is_recorded}
use dra_example_driver.State.Unsynced.{granted, unprepare_unsynced}
use dra_example_driver.State.Resolved.{Resolves, prepare-Resolves}
use dra_example_driver.State.Returns.{unprepare_returns}
use dra_example_driver.State.Duplicates.{entries, prepare_duplicates}
use dra_example_driver.World.{World, attempt}
use dra_example_driver.Tests.Calls.{toy_codec}
use dra_example_driver.Tests.Setup.{toy_host, state, order, claim, fresh_world, foreign}
use dra_example_driver.Tests.Runs.{runs, devices, computed_devices, prepared_world}
use dra_example_driver.Tests.Trees.{recorded, found_lem, unrecorded}

computed_nonempty : computed_devices ≢ []
unfolding get_devices
computed_nonempty e =
    let (c, pds, at, computed, same, cases) =
      prepare_sound toy_host state order claim fresh_world prepared_world devices runs.0 in
    let empty : pds ≡ [] = ok-inj (sym computed ∙ runs.7) ∙ e in
    let none_returned : devices ≡ [] = same ∙ ap get_devices empty in cc

-- The cache without the spec of the claim.
abbrev cut_cache : Dict Text Spec
cut_cache = keep (λ e. not (e.0 == spec_name toy_host state.cdi claim.uid)) prepared_world.cache

-- After the claim has been prepared, the disk is full when the checkpoint is written.
abbrev filling_world : World toy_host
filling_world = record prepared_world {
  faults = none ∷ granted (prepared_claim claim).devices (some "no space left on device" ∷ []);
}

unprepare_unsynced_example :
    (w' : World toy_host) × (unprepare toy_host state claim.uid filling_world ≡ (
      err (
          describe "unable to sync to checkpoint"
            (wrap "create temp file" (failure "no space left on device"))),
      w',
    ))
    × (w'.cache ≡ cut_cache)
    × ((q : FilePath)
        → lookup q w'.tree ≡ (
            if is_recorded (some (prepared_claim claim)) q
            then none
            else lookup q filling_world.tree))
    × (prepare toy_host state order claim w' ≡ (ok (get_devices computed_devices), w'))
unprepare_unsynced_example =
    unprepare_unsynced toy_host state order claim filling_world recorded (prepared_claim claim)
      cut_cache computed_devices "no space left on device" refl runs.6 found_lem refl runs.7
      computed_nonempty

prepare-Resolves_example :
    (spec : Spec) × (toy_host.write_spec spec
        (spec_name toy_host state.cdi claim.uid)
        fresh_world.cache
      ≡ ok prepared_world.cache)
    × All (Resolves toy_host state claim spec) devices
prepare-Resolves_example =
    prepare-Resolves toy_host state claim order fresh_world prepared_world new_checkpoint devices
      refl unrecorded runs.0

unprepare_returns_example :
    (w' : World toy_host) × (unprepare toy_host state claim.uid prepared_world ≡ (ok tt, w'))
    × (w'.checkpoint_file ≡ some (to_v1 (remove_claim_from_checkpoint claim.uid recorded)))
    × (w'.cache ≡ cut_cache)
    × ((q : FilePath)
        → lookup q w'.tree ≡ (
            if is_recorded (find_claim claim.uid recorded.prepared_claims) q
            then none
            else lookup q prepared_world.tree))
unprepare_returns_example =
    unprepare_returns toy_host state claim.uid prepared_world recorded cut_cache
      (to_v1 (remove_claim_from_checkpoint claim.uid recorded)) runs.1 runs.6 refl refl

-- A claim with no device of this driver.
abbrev guest : ResourceClaim
guest = record claim { allocation = some (record { results = foreign ∷ []; config = [] }) }

abbrev guest_world : World toy_host
guest_world = (prepare toy_host state order guest fresh_world).1

guest_runs :
    (compute toy_host state order guest ≡ ok [])
    × (prepare toy_host state order guest fresh_world ≡ (ok [], guest_world))
unfolding read_checkpoint write_checkpoint attempt has_claim prepare_devices create_directories
    prepare_fresh restore_claim_from_checkpoint prepare list_eq nat_eq lookup append_cdi_devices
    claim_spec create_claim_spec_file spec_name kind vendor add_result apply_configs
    check_admin_access collect_devices compute_device_config group_results decode_all first_applying
    get_opaque_device_configs select split_sources get_devices publish network_profile apply_config
    edits_of
guest_runs = (refl, refl)

prepare_duplicates_example :
    (c' : Checkpoint) × (stored toy_host guest_world.checkpoint_file ≡ ok c')
    × (entries guest.uid c' ≡ entries guest.uid new_checkpoint + 1)
prepare_duplicates_example =
    prepare_duplicates toy_host state toy_codec order guest fresh_world guest_world new_checkpoint
      [] refl guest_runs.0 guest_runs.1
