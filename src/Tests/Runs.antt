-- ===== src/Tests/Runs.antt =====
-- Runs of `Prepare`, `Unprepare` and `PrepareResourceClaims` at concrete worlds.
use dra_example_driver.Common.{◌≡◌, refl, none, some, List, [], ◌∷◌, codes}
use dra_example_driver.Failure.{Outcome, ok, err, panicked, failure, describe, wrap}
use dra_example_driver.Api.{Device}
use dra_example_driver.Checkpoint.{new_checkpoint}
use dra_example_driver.CheckpointFile.Read.{stored}
use dra_example_driver.Devices.{PreparedDevice}
use dra_example_driver.World.{World}
use dra_example_driver.Driver.{PrepareResult, plugin_device}
use dra_example_driver.Tests.Setup.{toy_host, state, order, claim, fresh_world}
use dra_example_driver.Cdi.ClaimSpec.{
  append_cdi_devices, claim_edits, claim_spec, create_claim_spec_file, delete_claim_spec_file,
  device_env_key, spec_name, to_upper,
}
use dra_example_driver.Cdi.Names.{get_claim_devices, kind, vendor}
use dra_example_driver.Checkpoint.{
  add_claim_to_checkpoint, find_claim, has_claim, prepared_claim, record_results,
  remove_claim_from_checkpoint,
}
use dra_example_driver.Checkpoint.V1.{from_v1, to_v1}
use dra_example_driver.CheckpointFile.{read_checkpoint, write_checkpoint}
use dra_example_driver.ClaimDir.{
  claim_dir, claim_root, create_claim_directory, delete_claim_directory,
}
use dra_example_driver.ClaimDir.Metadata.{metadata_json}
use dra_example_driver.Common.{list_eq, nat_eq}
use dra_example_driver.Common.Dict.{insert, lookup}
use dra_example_driver.Compute.{
  add_result, apply_configs, check_admin_access, collect_devices, compute_device_config,
  group_results,
}
use dra_example_driver.Config.{
  decode_all, first_applying, get_opaque_device_configs, select, split_sources,
}
use dra_example_driver.Devices.{get_devices}
use dra_example_driver.Driver.{
  append_plugin_devices, prepare_claims, prepare_resource_claim, prepare_resource_claims,
  unprepare_claims, unprepare_resource_claim, unprepare_resource_claims,
}
use dra_example_driver.Naming.{extract_stable_claim_name, is_alphanumeric, pod_hash_index}
use dra_example_driver.Naming.Strings.{has_prefix, join, split, trim_prefix}
use dra_example_driver.Paths.{join_path, parent, step_into, walk}
use dra_example_driver.Profile.Network.{
  apply_config, device_edits, edits_of, mount_dir, network_profile,
}
use dra_example_driver.State.{
  create_directories, delete_directories, prepare, prepare_devices, prepare_fresh,
  restore_claim_from_checkpoint, unprepare, unprepare_devices,
}
use dra_example_driver.State.Publish.{device_statuses, publish, update_device_status}
use dra_example_driver.World.{attempt}
use dra_example_driver.World.Files.{
  chmod, chown, drop_below, is_below, make_dirs, mkdir_all, remove_all, write_file,
}
use native.Mathlib.Decide.{ℕ_discrete}

abbrev pub devices : List Device
devices =
    record {
      request_names = codes "net" ∷ [];
      pool_name = codes "node";
      device_name = codes "network-0";
      cdi_device_ids =
          codes "k8s.network.example.com/network=common"
          ∷ codes "k8s.network.example.com/network=u1-network-0"
          ∷ [];
    }
    ∷ []

abbrev devices_of : Outcome (List PreparedDevice) → List PreparedDevice
devices_of (ok pds) = pds
devices_of (err e) = []
devices_of panicked = []

abbrev pub computed_devices : List PreparedDevice
computed_devices =
    devices_of
      (compute_device_config toy_host.decode_config toy_host.qualified_name state order claim)

abbrev pub prepared_world : World toy_host
prepared_world = (prepare toy_host state order claim fresh_world).1

abbrev pub unprepared_world : World toy_host
unprepared_world = (unprepare toy_host state claim.uid prepared_world).1

abbrev pub full_disk : World toy_host
full_disk = record fresh_world { faults = none ∷ none ∷ some "no space left on device" ∷ [] }

abbrev pub answer : PrepareResult
answer = record {
  devices =
      plugin_device (record {
        request_names = codes "net" ∷ [];
        pool_name = codes "node";
        device_name = codes "network-0";
        cdi_device_ids =
            codes "k8s.network.example.com/network=common"
            ∷ codes "k8s.network.example.com/network=u1-network-0"
            ∷ [];
      })
      ∷ [];
  error = none;
}

pub runs :
    (prepare toy_host state order claim fresh_world ≡ (ok devices, prepared_world))
    × (prepared_world.faults ≡ [])
    × (unprepare toy_host state claim.uid prepared_world ≡ (ok tt, unprepared_world))
    × ((prepare toy_host state order claim full_disk).0
        ≡ err (
            describe "prepare failed"
              (wrap "failed to create claim directory" (failure "no space left on device"))))
    × ((unprepare toy_host state claim.uid full_disk).0
        ≡ err (
            describe "unable to sync to checkpoint"
              (wrap "encode to temp file" (failure "no space left on device"))))
    × ((prepare_resource_claims toy_host state ((order, claim) ∷ []) fresh_world).0
        ≡ ok ((claim.uid, answer) ∷ []))
    × (stored toy_host prepared_world.checkpoint_file
        ≡ ok (add_claim_to_checkpoint claim new_checkpoint))
    × (compute_device_config toy_host.decode_config toy_host.qualified_name state order claim
        ≡ ok computed_devices)
    × ((create_claim_directory toy_host claim.name (codes "net") (codes "network-0") fresh_world).0
        ≡ ok (claim_dir claim.name (codes "net")))
    × ((delete_claim_directory toy_host claim.name (codes "net") prepared_world).0 ≡ ok tt)
    × ((unprepare_resource_claims toy_host state (claim.uid ∷ codes "u2" ∷ []) prepared_world).0
        ≡ ok ((claim.uid, none) ∷ (codes "u2", none) ∷ []))
unfolding read_checkpoint write_checkpoint attempt has_claim add_claim_to_checkpoint prepared_claim
    record_results find_claim remove_claim_from_checkpoint prepare_devices create_directories
    prepare_fresh restore_claim_from_checkpoint prepare unprepare unprepare_devices
    delete_directories list_eq nat_eq create_claim_directory claim_dir claim_root
    delete_claim_directory mkdir_all chmod chown make_dirs write_file remove_all drop_below is_below
    join_path parent step_into walk split has_prefix trim_prefix join extract_stable_claim_name
    is_alphanumeric pod_hash_index lookup insert append_cdi_devices claim_edits claim_spec
    create_claim_spec_file device_env_key spec_name to_upper delete_claim_spec_file
    get_claim_devices kind vendor from_v1 to_v1 metadata_json add_result apply_configs
    check_admin_access collect_devices compute_device_config group_results decode_all first_applying
    get_opaque_device_configs select split_sources get_devices device_statuses publish
    update_device_status ℕ_discrete network_profile apply_config edits_of device_edits mount_dir
    dra_example_driver.Profile.Network.StableName.extract_stable_claim_name
    dra_example_driver.Profile.Network.StableName.is_alphanumeric prepare_resource_claims
    prepare_claims prepare_resource_claim append_plugin_devices unprepare_resource_claims
    unprepare_claims unprepare_resource_claim
runs = (refl, refl, refl, refl, refl, refl, refl, refl, refl, refl, refl)
