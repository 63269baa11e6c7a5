-- ===== src/Plugin.antt =====
-- The plugin as a whole: `newApp` and `RunPlugin` of cmd/dra-example-kubeletplugin/main.go, and
-- `NewDriver` and `Shutdown` of driver.go. Between the start and the end of the plugin the kubelet
-- sends requests; the lock keeps the calls for claims apart, so that they are a list.
pub mod Keeps
pub mod Readable
pub mod Claims
pub mod Refused
use dra_example_driver.Common.{
  not, Option, none, some, List, [], ◌∷◌, ◌++◌, Text, codes, ◌==◌, nat_eq, list_eq, contains,
  if◌then◌else◌,
}
use dra_example_driver.Failure.{
  Error, Outcome, ok, err, panicked, failure, about, is_not_exist, wrap, map_error,
}
use dra_example_driver.Failure.Action.{Action, pure, raise, panic, lift, on_error, try, ◌>>=◌, ◌>>◌}
use dra_example_driver.Api.{ResourceClaim}
use dra_example_driver.Compute.{MapOrder}
use dra_example_driver.Devices.{DeviceState}
use dra_example_driver.Driver.{prepare_resource_claims, unprepare_resource_claims}
use dra_example_driver.Flags.{Flags, KubeClientConfig, profile_name, driver_plugin_path}
use dra_example_driver.Health.Start.{Healthcheck, start_healthcheck}
use dra_example_driver.KubeClient.{new_client_sets}
use dra_example_driver.Paths.{FilePath, path_of, show_path}
use dra_example_driver.Services.{Services, PluginOptions}
use dra_example_driver.Startup.{new_device_state}
use dra_example_driver.World.{Host, World, Node, directory, file}
use dra_example_driver.World.Files.{mkdir_all, stat}

-- `driver`; its client and its cancel function are those of the configuration.
pub record PluginDriver (H : Host) (V : Services) : Type 0 where
  pub state : DeviceState H.Payload H.Status
  pub helper : V.Helper
  pub healthcheck : Option (Healthcheck V)

abbrev pub plugin_options : Flags → PluginOptions
plugin_options flags = record {
  node_name = flags.node_name;
  driver_name = flags.driver_name;
  registrar_directory_path = flags.kubelet_registrar_directory_path;
  plugin_data_directory_path = show_path (driver_plugin_path flags);
  rolling_update = flags.pod_uid;
}

-- The keys of `validProfiles`
abbrev pub valid_profile_names : List Text
valid_profile_names = profile_name ∷ []

-- A request of the kubelet.
pub data Request (P : Type 0) : Type 0 where
  prepare_request : List (MapOrder P × ResourceClaim) → Request P
  unprepare_request : List Text → Request P

abbrev pub with_driver_name : Flags → Flags
with_driver_name flags =
    if flags.driver_name == []
    then record flags { driver_name = flags.profile ++ codes ".example.com" }
    else flags

module _ (H : Host) (V : Services) where
  -- The node name of the flags, and the environment variable NODE_NAME that the CDI handler reads.
  unfoldable pub new_driver : Flags → V.Client → Text → Action (World H) (PluginDriver H V)
  unfolding new_device_state start_healthcheck
  new_driver flags client node_name = do
    state ← new_device_state H flags node_name
    helper ← lift (V.start_helper client (plugin_options flags))
    healthcheck ← lift (map_error (wrap "start healthcheck") (start_healthcheck V flags))
    lift (V.publish_resources helper state.driver_resources)
    pure (record { state = state; helper = helper; healthcheck = healthcheck })

  -- Stopping the servers changes nothing in the world of the model.
  abbrev pub shutdown : PluginDriver H V → Action (World H) (Unit {0})
  shutdown driver = pure tt

  unfoldable pub serve :
      DeviceState H.Payload H.Status → List (Request H.Payload) → Action (World H) (Unit {0})
  serve s [] = pure tt
  serve s (prepare_request claims ∷ requests) = do
    answers ← prepare_resource_claims H s claims
    serve s requests
  serve s (unprepare_request uids ∷ requests) = do
    answers ← unprepare_resource_claims H s uids
    serve s requests

  -- The `switch` of `RunPlugin` on what `os.Stat` of the CDI root returned.
  abbrev pub ensure_cdi_root : FilePath → Outcome Node → Action (World H) (Unit {0})
  ensure_cdi_root root (ok (directory a)) = pure tt
  ensure_cdi_root root (ok (file a content)) =
      raise (failure "path for cdi file generation is not a directory")
  ensure_cdi_root root (err e) = if is_not_exist e then mkdir_all root 0o750 else raise e
  ensure_cdi_root root panicked = panic

  -- From the start to a signal or a fatal error in the background; what `Shutdown` returns is logged.
  unfoldable pub run_plugin :
      Flags → V.Client → Text → List (Request H.Payload) → Action (World H) (Unit {0})
  unfolding new_driver serve
  run_plugin flags client node_name requests = do
    mkdir_all (driver_plugin_path flags) 0o750
    info ← try (stat (path_of flags.cdi_root))
    ensure_cdi_root (path_of flags.cdi_root) info
    driver ← new_driver flags client node_name
    serve driver.state requests
    dropped ← try (shutdown driver)
    pure tt

  -- `Before`, with the arguments that are left and what applying the logging configuration returns.
  abbrev pub before : List Text → Outcome (Unit {0}) → Outcome (Unit {0})
  before [] applied = applied
  before (argument ∷ arguments) applied = err (about "arguments not supported" argument)

  -- `Action`
  unfoldable pub action :
      Flags
      → KubeClientConfig V.Float
      → Text
      → List (Request H.Payload)
      → Action (World H) (Unit {0})
  unfolding run_plugin new_client_sets
  action flags kube node_name requests = do
    client ← lift (map_error (wrap "create client") (new_client_sets V kube))
    let named = with_driver_name flags
    if contains valid_profile_names named.profile
        then run_plugin named client node_name requests
        else raise (about "invalid device profile" named.profile)

  -- The application, once the flags are parsed.
  unfoldable pub run_app :
      List Text
      → Outcome (Unit {0})
      → Flags
      → KubeClientConfig V.Float
      → Text
      → List (Request H.Payload)
      → Action (World H) (Unit {0})
  unfolding action
  run_app arguments applied flags kube node_name requests = do
    lift (before arguments applied)
    action flags kube node_name requests
