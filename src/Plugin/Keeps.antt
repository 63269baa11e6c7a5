-- ===== src/Plugin/Keeps.antt =====
-- A whole run of the plugin changes only what the calls for its requests change, besides the tree of
-- directories, the CDI cache and the list of faults.
use dra_example_driver.Common.{
  ◌≡◌, All, List, [], ◌∷◌, Text, Bool, true, false, contains, if◌then◌else◌, nat_eq, list_eq,
}
use mathlib.Core.Path.{subst}
use dra_example_driver.Failure.{
  Error, Outcome, ok, err, panicked, wrap, map_error, is_not_exist, about,
}
use dra_example_driver.Failure.Action.{lift, try, raise, gets}
use dra_example_driver.Failure.Triples.{
  Post, pure-Triple, raise-Triple, panic-Triple, gets-Triple, bind-Triple,
}
use dra_example_driver.Devices.{DeviceState}
use dra_example_driver.Driver.{prepare_resource_claims, unprepare_resource_claims}
use dra_example_driver.Driver.Keeps.{
  try-Keeps, prepare_resource_claims-Keeps, unprepare_resource_claims-Keeps,
}
use dra_example_driver.Flags.{Flags, KubeClientConfig, driver_plugin_path}
use dra_example_driver.Health.Start.{start_healthcheck}
use dra_example_driver.KubeClient.{new_client_sets}
use dra_example_driver.Paths.{FilePath, path_of}
use dra_example_driver.Plugin.{
  Request, prepare_request, unprepare_request, new_driver, serve, ensure_cdi_root, run_plugin,
  before, action, run_app, with_driver_name, valid_profile_names, plugin_options,
}
use dra_example_driver.Services.{Services}
use dra_example_driver.Startup.{new_device_state}
use dra_example_driver.Startup.Keeps.{new_device_state-Keeps}
use dra_example_driver.Cdi.Cached.{IgnoresCache}
use dra_example_driver.State.{prepare, unprepare}
use dra_example_driver.World.{Host, World, Node, directory, file, attempt}
use dra_example_driver.World.Files.{mkdir_all, stat, find}
use dra_example_driver.World.Keeps.{
  IgnoresTree, Keeps, lift-Keeps, mkdir_all-Keeps, attempt-Keeps, tree-faults,
}

module _ {H : Host} {P : World H → Type 0} (on_tree : IgnoresTree P)
    (on_cache : IgnoresCache P) where
  stat-Keeps : (p : FilePath) → Keeps P (stat p)
  unfolding stat
  stat-Keeps p = bind-Triple attempt _ (attempt-Keeps (tree-faults on_tree)) λ _.
      bind-Triple (gets (λ w. find w.tree [] p)) _ (gets-Triple _ (λ w h. h))
        λ node. lift-Keeps node

  module _ (V : Services) where
    missing :
        (root : FilePath) (e : Error) (b : Bool)
        → Keeps P (if b then mkdir_all root 0o750 else raise e)
    missing root e true = mkdir_all-Keeps on_tree root 0o750
    missing root e false = raise-Triple e (λ w h. h)

    ensure_cdi_root-Keeps :
        (root : FilePath) (info : Outcome Node) → Keeps P (ensure_cdi_root H V root info)
    ensure_cdi_root-Keeps root (ok (directory a)) = pure-Triple tt (λ w h. h)
    ensure_cdi_root-Keeps root (ok (file a content)) = raise-Triple _ (λ w h. h)
    ensure_cdi_root-Keeps root (err e) = missing root e (is_not_exist e)
    ensure_cdi_root-Keeps root panicked = panic-Triple (λ w h. h)

    new_driver-Keeps :
        (flags : Flags) (client : V.Client) (node_name : Text)
        → Keeps P (new_driver H V flags client node_name)
    unfolding new_driver
    new_driver-Keeps flags client node_name =
        bind-Triple (new_device_state H flags node_name) _
          (new_device_state-Keeps on_tree on_cache flags node_name)
          λ state.
            bind-Triple (lift (V.start_helper client (plugin_options flags))) _ (lift-Keeps _)
              λ helper.
                bind-Triple
                  (lift (map_error (wrap "start healthcheck") (start_healthcheck V flags))) _
                  (lift-Keeps _)
                  λ healthcheck.
                    bind-Triple (lift (V.publish_resources helper state.driver_resources)) _
                      (lift-Keeps _) λ _. pure-Triple _ (λ w h. h)

    -- The calls of `Prepare` that the request leads to keep `P`.
    abbrev pub Kept : DeviceState H.Payload H.Status → Request H.Payload → Type 0
    Kept s (prepare_request claims) =
        All (λ (order, claim). Keeps P (prepare H s order claim)) claims
    Kept s (unprepare_request uids) = Unit {0}

    module _ (requests : List (Request H.Payload))
        (prepares : (s : DeviceState H.Payload H.Status) → All (Kept s) requests)
        (unprepares : (s : DeviceState H.Payload H.Status) (uid : Text)
          → Keeps P (unprepare H s uid)) where
      serve-Keeps :
          (s : DeviceState H.Payload H.Status) (rs : List (Request H.Payload))
          → All (Kept s) rs
          → Keeps P (serve H V s rs)
      unfolding serve
      serve-Keeps s [] _ = pure-Triple tt (λ w h. h)
      serve-Keeps s (prepare_request claims ∷ rs) (keeps, rest) =
          bind-Triple (prepare_resource_claims H s claims) _
            (prepare_resource_claims-Keeps s claims keeps) λ _. serve-Keeps s rs rest
      serve-Keeps s (unprepare_request uids ∷ rs) (_, rest) =
          bind-Triple (unprepare_resource_claims H s uids) _
            (unprepare_resource_claims-Keeps s (unprepares s) uids) λ _. serve-Keeps s rs rest

      run_plugin-Keeps :
          (flags : Flags) (client : V.Client) (node_name : Text)
          → Keeps P (run_plugin H V flags client node_name requests)
      unfolding run_plugin
      run_plugin-Keeps flags client node_name =
          bind-Triple (mkdir_all (driver_plugin_path flags) 0o750) _
            (mkdir_all-Keeps on_tree (driver_plugin_path flags) 0o750)
            λ _.
              bind-Triple (try (stat (path_of flags.cdi_root))) _
                (try-Keeps (stat (path_of flags.cdi_root)) (stat-Keeps _))
                λ info.
                  bind-Triple (ensure_cdi_root H V (path_of flags.cdi_root) info) _
                    (ensure_cdi_root-Keeps _ info)
                    λ _.
                      bind-Triple (new_driver H V flags client node_name) _
                        (new_driver-Keeps flags client node_name)
                        λ driver.
                          bind-Triple (serve H V driver.state requests) _
                            (serve-Keeps driver.state requests (prepares driver.state))
                            λ _. pure-Triple tt (λ w h. h)

      action-Keeps :
          (flags : Flags) (kube : KubeClientConfig V.Float) (node_name : Text)
          → Keeps P (action H V flags kube node_name requests)
      unfolding action
      action-Keeps flags kube node_name =
          bind-Triple (lift (map_error (wrap "create client") (new_client_sets V kube))) _
            (lift-Keeps _)
            λ client. chosen client (contains valid_profile_names (with_driver_name flags).profile)
        where
          chosen :
              (client : V.Client) (b : Bool)
              → Keeps P (
                  if b
                  then run_plugin H V (with_driver_name flags) client node_name requests
                  else raise (about "invalid device profile" (with_driver_name flags).profile))
          chosen client true = run_plugin-Keeps (with_driver_name flags) client node_name
          chosen client false = raise-Triple _ (λ w h. h)

      run_app-Keeps :
          (arguments : List Text) (applied : Outcome (Unit {0})) (flags : Flags)
          (kube : KubeClientConfig V.Float) (node_name : Text)
          → Keeps P (run_app H V arguments applied flags kube node_name requests)
      unfolding run_app
      run_app-Keeps arguments applied flags kube node_name =
          bind-Triple (lift (before H V arguments applied)) _ (lift-Keeps _)
            λ _. action-Keeps flags kube node_name

      -- What holds of the world when the plugin starts holds when it has ended, if the calls for the
      -- requests keep it.
      pub run_app_keeps :
          (arguments : List Text) (applied : Outcome (Unit {0})) (flags : Flags)
          (kube : KubeClientConfig V.Float) (node_name : Text) (w w' : World H)
          (r : Outcome (Unit {0}))
          → run_app H V arguments applied flags kube node_name requests w ≡ (r, w')
          → P w
          → P w'
      run_app_keeps arguments applied flags kube node_name w w' r e p = ended r w' (
          subst (Post (λ a. P) P) e
            ((run_app-Keeps arguments applied flags kube node_name).run w p))
        where
          ended : (r : Outcome (Unit {0})) (w' : World H) → Post (λ a. P) P (r, w') → P w'
          ended (ok a) w' h = h
          ended (err e) w' h = h
          ended panicked w' h = h
