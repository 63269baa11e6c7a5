-- ===== src/Tests/Plugin.antt =====
-- The theorems on the whole plugin, with servers and clients that always start.
use dra_example_driver.Common.{
  ◌≡◌, ◌≢◌, refl, inr, false, List, [], ◌∷◌, Text, codes, contains, nat_eq, list_eq, true, ◌||◌,
}
use dra_example_driver.Common.Int.{pos}
use dra_example_driver.Failure.{Outcome, ok}
use dra_example_driver.Checkpoint.{
  Checkpoint, new_checkpoint, add_claim_to_checkpoint, has_claim, prepared_claim, record_results,
}
use dra_example_driver.CheckpointFile.Read.{stored}
use dra_example_driver.Flags.{Flags, KubeClientConfig, driver_plugin_path}
use dra_example_driver.Plugin.{
  Request, prepare_request, unprepare_request, run_app, valid_profile_names, action, run_plugin,
  new_driver, serve,
}
use dra_example_driver.Plugin.Readable.{run_app_readable}
use dra_example_driver.Plugin.Refused.{run_app_refused}
use dra_example_driver.Services.{Services}
use dra_example_driver.World.{World, attempt}
use dra_example_driver.Tests.Calls.{toy_codec, prepared_has}
use dra_example_driver.Tests.Setup.{toy_host, order, claim, fresh_world}
use dra_example_driver.Tests.Start.{flags}
use dra_example_driver.Devices.{get_devices}
use dra_example_driver.Driver.{
  append_plugin_devices, prepare_claims, prepare_resource_claim, prepare_resource_claims,
}
use dra_example_driver.Cdi.ClaimSpec.{
  append_cdi_devices, claim_edits, claim_spec, create_claim_spec_file, device_env_key, spec_name,
  to_upper,
}
use dra_example_driver.Cdi.Names.{get_claim_devices, kind, vendor}
use dra_example_driver.Checkpoint.V1.{from_v1, to_v1}
use dra_example_driver.CheckpointFile.{read_checkpoint, write_checkpoint}
use dra_example_driver.ClaimDir.{claim_dir, claim_root, create_claim_directory}
use dra_example_driver.ClaimDir.Metadata.{metadata_json}
use dra_example_driver.Common.Dict.{insert, lookup}
use dra_example_driver.Compute.{
  add_result, apply_configs, check_admin_access, collect_devices, compute_device_config,
  group_results,
}
use dra_example_driver.Config.{
  decode_all, first_applying, get_opaque_device_configs, select, split_sources,
}
use dra_example_driver.Naming.{extract_stable_claim_name, is_alphanumeric, pod_hash_index}
use dra_example_driver.Naming.Strings.{has_prefix, join, split, trim_prefix}
use dra_example_driver.Paths.{path_of, join_path, parent, step_into, walk}
use dra_example_driver.Profile.Network.{
  apply_config, device_edits, edits_of, mount_dir, network_profile,
}
use dra_example_driver.State.{
  create_directories, prepare, prepare_devices, prepare_fresh, restore_claim_from_checkpoint,
}
use dra_example_driver.State.Publish.{device_statuses, publish, update_device_status}
use dra_example_driver.World.Files.{chmod, chown, make_dirs, mkdir_all, write_file, stat, find}
use dra_example_driver.Startup.{
  pool_device, append_pool_devices, add_devices, add_slices, enumerate_devices, common_spec,
  create_common_spec_file, new_cdi_handler, new_device_state,
}
use dra_example_driver.Startup.Decimal.{show_decimal}
use dra_example_driver.KubeClient.{new_client_sets, new_client_set_config}
use dra_example_driver.Health.Start.{start_healthcheck, registration_socket, dra_socket}
use dra_example_driver.Plugin.Claims.{requested, run_app_claims}

abbrev toy_services : Services
toy_services = record {
  Client = Unit {0};
  Helper = Unit {0};
  start_helper = λ client options. ok tt;
  publish_resources = λ helper resources. ok tt;
  Listener = Unit {0};
  listen = λ address. ok tt;
  Connection = Unit {0};
  new_connection = λ url. ok tt;
  Float = Unit {0};
  RestConfig = Unit {0};
  in_cluster_config = ok tt;
  config_from_file = λ path. ok tt;
  set_qps = λ qps config. config;
  set_burst = λ burst config. config;
  new_client = λ config. ok tt;
}

abbrev kube : KubeClientConfig (Unit {0})
kube = record { kube_config = []; kube_api_qps = tt; kube_api_burst = pos 10 }

abbrev requests : List (Request Text)
requests = prepare_request ((order, claim) ∷ []) ∷ unprepare_request (claim.uid ∷ []) ∷ []

abbrev ended : Outcome (Unit {0}) × World toy_host
ended = run_app toy_host toy_services [] (ok tt) flags kube (codes "node") requests fresh_world

run_app_readable_example : (c : Checkpoint) × (stored toy_host ended.1.checkpoint_file ≡ ok c)
run_app_readable_example =
    run_app_readable toy_host toy_codec toy_services [] (ok tt) flags kube (codes "node") requests
      fresh_world ended.1 ended.0 new_checkpoint refl refl

abbrev gpu_flags : Flags
gpu_flags = record flags { profile = codes "gpu" }

gpu_unknown : contains valid_profile_names gpu_flags.profile ≡ false
unfolding list_eq nat_eq
gpu_unknown = refl

run_app_refused_example :
    (r : Outcome (Unit {0})) × (run_app toy_host toy_services []
        (ok tt)
        gpu_flags
        kube
        (codes "node")
        requests
        fresh_world
      ≡ (r, fresh_world))
    × (r ≢ ok tt)
run_app_refused_example =
    run_app_refused toy_host toy_services gpu_flags kube (codes "node") requests fresh_world []
      (ok tt) (inr gpu_unknown)

-- A run in which the claim is prepared and nothing else is asked for.
abbrev one_request : List (Request Text)
one_request = prepare_request ((order, claim) ∷ []) ∷ []

abbrev one_ended : Outcome (Unit {0}) × World toy_host
one_ended =
    run_app toy_host toy_services [] (ok tt) flags kube (codes "node") one_request fresh_world

one_ended_lem :
    (one_ended.0 ≡ ok tt)
    × (stored toy_host one_ended.1.checkpoint_file
        ≡ ok (add_claim_to_checkpoint claim new_checkpoint))
unfolding run_app action run_plugin new_driver serve new_client_sets new_client_set_config
    start_healthcheck registration_socket dra_socket driver_plugin_path new_device_state
    enumerate_devices new_cdi_handler create_common_spec_file add_slices add_devices
    append_pool_devices pool_device show_decimal common_spec stat find read_checkpoint
    write_checkpoint attempt has_claim add_claim_to_checkpoint prepared_claim record_results
    prepare_devices create_directories prepare_fresh restore_claim_from_checkpoint prepare list_eq
    nat_eq create_claim_directory claim_dir claim_root mkdir_all chmod chown make_dirs write_file
    join_path parent step_into walk split has_prefix trim_prefix join extract_stable_claim_name
    is_alphanumeric pod_hash_index lookup insert append_cdi_devices claim_edits claim_spec
    create_claim_spec_file device_env_key spec_name to_upper get_claim_devices kind vendor from_v1
    to_v1 metadata_json add_result apply_configs check_admin_access collect_devices
    compute_device_config group_results decode_all first_applying get_opaque_device_configs select
    split_sources get_devices device_statuses publish update_device_status network_profile
    apply_config edits_of device_edits mount_dir
    dra_example_driver.Profile.Network.StableName.extract_stable_claim_name
    dra_example_driver.Profile.Network.StableName.is_alphanumeric prepare_resource_claims
    prepare_claims prepare_resource_claim append_plugin_devices path_of
one_ended_lem = (refl, refl)

run_app_claims_example :
    (has_claim claim.uid new_checkpoint || contains (requested one_request) claim.uid) ≡ true
run_app_claims_example =
    run_app_claims toy_host toy_codec toy_services [] (ok tt) flags kube (codes "node") one_request
      fresh_world one_ended.1 one_ended.0 new_checkpoint
      (add_claim_to_checkpoint claim new_checkpoint) claim.uid refl refl one_ended_lem.1
      prepared_has
