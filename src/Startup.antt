-- ===== src/Startup.antt =====
-- What the driver does once when it starts: `EnumerateDevices` (internal/profiles/network/network.go),
-- `NewCDIHandler` and `CreateCommonSpecFile` (cmd/dra-example-kubeletplugin/cdi.go), and
-- `NewDeviceState` (cmd/dra-example-kubeletplugin/state.go) with the network profile, which is the only
-- one, and which publishes no status.
pub mod Decimal
pub mod CommonSpec
pub mod Allocatable
pub mod Keeps
use dra_example_driver.Common.{
  ℕ, zero, suc, ◌+◌, none, some, List, [], ◌∷◌, ◌++◌, Text, codes, nat_eq, list_eq,
}
use dra_example_driver.Common.Dict.{Dict, lookup, insert}
use dra_example_driver.Failure.{Outcome, wrap, describe, map_error}
use dra_example_driver.Failure.Action.{Action, pure, lift, gets, modify, on_error, ◌>>=◌, ◌>>◌}
use dra_example_driver.Api.{Spec}
use dra_example_driver.Cdi.Names.{CdiHandler, cdi_common_device_name, kind}
use dra_example_driver.Common.Int.{pos_part}
use dra_example_driver.Flags.{Flags}
use dra_example_driver.Devices.{DeviceState, DriverResources, PoolDevice}
use dra_example_driver.Profile.Network.{host_base_dir, network_profile}
use dra_example_driver.World.{Host, World}
use dra_example_driver.World.Files.{mkdir_all}
use Decimal.{show_decimal}

unfoldable pub pool_device : ℕ → PoolDevice
unfolding show_decimal
pool_device i = record {
  name = codes "network-" ++ show_decimal i;
  index = i;
  device_type = codes "kubevirt-network-directory";
}

-- The loop of `EnumerateDevices` from `i` on, with the rounds that are left and the devices so far.
unfoldable pub append_pool_devices : ℕ → ℕ → List PoolDevice → List PoolDevice
unfolding pool_device
append_pool_devices zero i devices = devices
append_pool_devices (suc rounds) i devices =
    append_pool_devices rounds (i + 1) (devices ++ pool_device i ∷ [])

-- The loops of `NewDeviceState` over the slices and over the devices of one.
unfoldable pub add_devices : List PoolDevice → Dict Text PoolDevice → Dict Text PoolDevice
add_devices [] allocatable = allocatable
add_devices (d ∷ ds) allocatable = add_devices ds (insert d.name d allocatable)

unfoldable pub add_slices : List (List PoolDevice) → Dict Text PoolDevice → Dict Text PoolDevice
unfolding add_devices
add_slices [] allocatable = allocatable
add_slices (slice ∷ slices) allocatable = add_slices slices (add_devices slice allocatable)

-- `driverResources.Pools[nodeName].Slices`
abbrev pub slices_of : Text → DriverResources → List (List PoolDevice)
slices_of node resources = elim (lookup node resources) [ none ↦ [] | some slices ↦ slices ]

module _ (H : Host) where
  unfoldable pub enumerate_devices : Text → ℕ → Action (World H) DriverResources
  unfolding append_pool_devices
  enumerate_devices node num_devices = do
    on_error (wrap "failed to create base directory") (mkdir_all host_base_dir 0o755)
    pure ((node, append_pool_devices num_devices 0 [] ∷ []) ∷ [])

  -- The spec of `CreateCommonSpecFile`, before its version is known, from the environment variable
  -- NODE_NAME.
  unfoldable pub common_spec : CdiHandler → Text → Spec
  unfolding kind
  common_spec cdi node_name = record {
    version = [];
    kind = kind cdi;
    devices =
        record {
          name = cdi_common_device_name;
          edits = record {
            env =
                (codes "KUBERNETES_NODE_NAME=" ++ node_name)
                ∷ (codes "DRA_RESOURCE_DRIVER_NAME=" ++ cdi.driver_name)
                ∷ [];
            mounts = [];
          };
        }
        ∷ [];
  }

  unfoldable pub create_common_spec_file : CdiHandler → Text → Action (World H) (Unit {0})
  unfolding common_spec
  create_common_spec_file cdi node_name = do
    let spec = common_spec cdi node_name
    version ← lift (
        map_error (describe "failed to get minimum required CDI spec version")
          (H.minimum_required_version spec))
    name ← lift (
        map_error (wrap "failed to generate Spec name")
          (H.name_transient_spec (record spec { version = version }) cdi_common_device_name))
    written ← gets (λ w. H.write_spec (record spec { version = version }) name w.cache)
    cache ← lift written
    modify (λ w. record w { cache = cache })

  unfoldable pub new_cdi_handler : Text → Text → Text → Action (World H) CdiHandler
  new_cdi_handler root driver_name cdi_class = do
    cache ← lift (map_error (wrap "unable to create a new CDI cache") (H.open_cache root))
    modify (λ w. record w { cache = cache })
    pure (record { driver_name = driver_name; cdi_class = cdi_class })

  unfoldable pub new_device_state : Flags → Text → Action (World H) (DeviceState H.Payload H.Status)
  unfolding enumerate_devices new_cdi_handler create_common_spec_file add_slices network_profile
  new_device_state flags node_name = do
    resources ←
        on_error (describe "error enumerating all possible devices")
          (enumerate_devices flags.node_name (pos_part flags.num_devices))
    cdi ←
        on_error (describe "unable to create CDI handler")
          (new_cdi_handler flags.cdi_root flags.driver_name flags.profile)
    on_error (describe "unable to create CDI spec file for common edits")
        (create_common_spec_file cdi node_name)
    pure (record {
      driver_name = flags.driver_name;
      cdi = cdi;
      driver_resources = resources;
      allocatable = add_slices (slices_of flags.node_name resources) [];
      config_handler = network_profile;
      status_builder = none;
    })
