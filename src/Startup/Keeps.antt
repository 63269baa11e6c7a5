-- ===== src/Startup/Keeps.antt =====
-- Starting the driver changes only the tree of directories, the CDI cache and the list of faults: whatever
-- else holds of the world before holds after, also after a failure.
use dra_example_driver.Common.{Text, ℕ, nat_eq, list_eq}
use dra_example_driver.Failure.{wrap, describe, map_error}
use dra_example_driver.Failure.Action.{modify, lift, on_error, gets, ◌>>=◌}
use dra_example_driver.Failure.Triples.{
  pure-Triple, gets-Triple, modify-Triple, bind-Triple, on_error-Triple,
}
use dra_example_driver.Api.{Spec}
use dra_example_driver.Cdi.Names.{CdiHandler, cdi_common_device_name}
use dra_example_driver.Common.Int.{pos_part}
use dra_example_driver.Flags.{Flags}
use dra_example_driver.Profile.Network.{host_base_dir}
use dra_example_driver.Startup.{
  enumerate_devices, new_cdi_handler, create_common_spec_file, new_device_state, common_spec,
}
use dra_example_driver.World.{Host, World}
use dra_example_driver.World.Files.{mkdir_all}
use dra_example_driver.World.Keeps.{IgnoresTree, Keeps, lift-Keeps, mkdir_all-Keeps}
use dra_example_driver.Cdi.Cached.{IgnoresCache}

module _ {H : Host} {P : World H → Type 0} (on_tree : IgnoresTree P)
    (on_cache : IgnoresCache P) where
  cache-Keeps : (cache : H.Cache) → Keeps P (modify (λ w. record w { cache = cache }))
  cache-Keeps cache = modify-Triple _ (λ w h. on_cache.cache w cache h)

  enumerate_devices-Keeps :
      (node : Text) (num_devices : ℕ) → Keeps P (enumerate_devices H node num_devices)
  unfolding enumerate_devices
  enumerate_devices-Keeps node num_devices =
      bind-Triple
        (on_error (wrap "failed to create base directory") (mkdir_all host_base_dir 0o755)) _
        (on_error-Triple _ _ (mkdir_all-Keeps on_tree host_base_dir 0o755))
        λ _. pure-Triple _ (λ w h. h)

  new_cdi_handler-Keeps :
      (root driver_name cdi_class : Text) → Keeps P (new_cdi_handler H root driver_name cdi_class)
  unfolding new_cdi_handler
  new_cdi_handler-Keeps root driver_name cdi_class =
      bind-Triple (lift (map_error (wrap "unable to create a new CDI cache") (H.open_cache root))) _
        (lift-Keeps _)
        λ cache.
          bind-Triple (modify (λ w. record w { cache = cache })) _ (cache-Keeps cache) λ _.
            pure-Triple (record { driver_name = driver_name; cdi_class = cdi_class }) (λ w h. h)

  written-Keeps :
      (spec : Spec) (name : Text)
      → Keeps P (do
        written ← gets (λ w. H.write_spec spec name w.cache)
        cache ← lift written
        modify (λ w. record w { cache = cache }))
  written-Keeps spec name =
      bind-Triple (gets (λ w. H.write_spec spec name w.cache)) _ (gets-Triple _ (λ w h. h))
        λ written. bind-Triple (lift written) _ (lift-Keeps written) cache-Keeps

  create_common_spec_file-Keeps :
      (cdi : CdiHandler) (node_name : Text) → Keeps P (create_common_spec_file H cdi node_name)
  unfolding create_common_spec_file
  create_common_spec_file-Keeps cdi node_name =
      bind-Triple
        (lift (
          map_error (describe "failed to get minimum required CDI spec version")
            (H.minimum_required_version (common_spec H cdi node_name))))
        _ (lift-Keeps _)
        λ version.
          bind-Triple
            (lift (
              map_error (wrap "failed to generate Spec name") (
                H.name_transient_spec (record (common_spec H cdi node_name) { version = version })
                  cdi_common_device_name)))
            _ (lift-Keeps _)
            λ name. written-Keeps (record (common_spec H cdi node_name) { version = version }) name

  pub new_device_state-Keeps :
      (flags : Flags) (node_name : Text) → Keeps P (new_device_state H flags node_name)
  unfolding new_device_state
  new_device_state-Keeps flags node_name =
      bind-Triple
        (on_error (describe "error enumerating all possible devices")
          (enumerate_devices H flags.node_name (pos_part flags.num_devices)))
        _
        (on_error-Triple (describe "error enumerating all possible devices")
          (enumerate_devices H flags.node_name (pos_part flags.num_devices))
          (enumerate_devices-Keeps flags.node_name (pos_part flags.num_devices)))
        λ resources.
          bind-Triple
            (on_error (describe "unable to create CDI handler")
              (new_cdi_handler H flags.cdi_root flags.driver_name flags.profile))
            _
            (on_error-Triple (describe "unable to create CDI handler")
              (new_cdi_handler H flags.cdi_root flags.driver_name flags.profile)
              (new_cdi_handler-Keeps flags.cdi_root flags.driver_name flags.profile))
            λ cdi.
              bind-Triple
                (on_error (describe "unable to create CDI spec file for common edits")
                  (create_common_spec_file H cdi node_name))
                _
                (on_error-Triple (describe "unable to create CDI spec file for common edits")
                  (create_common_spec_file H cdi node_name)
                  (create_common_spec_file-Keeps cdi node_name))
                λ _. pure-Triple _ (λ w h. h)
