-- ===== src/Tests/Start.antt =====
-- The theorem on startup at a concrete input.
use dra_example_driver.Common.{
  ◌≡◌, refl, if◌then◌else◌, ltb, none, some, [], ◌∷◌, ◌++◌, Text, codes, nat_eq, list_eq,
}
use dra_example_driver.Common.Dict.{lookup, insert}
use dra_example_driver.Cdi.Names.{kind, vendor}
use dra_example_driver.Common.Int.{pos, pos_part}
use dra_example_driver.Flags.{Flags}
use dra_example_driver.Devices.{DeviceState}
use dra_example_driver.Failure.{ok}
use dra_example_driver.Startup.{
  pool_device, append_pool_devices, add_devices, add_slices, enumerate_devices, common_spec,
  create_common_spec_file, new_cdi_handler, new_device_state,
}
use dra_example_driver.Startup.Decimal.{show_decimal}
use dra_example_driver.Profile.Network.{network_profile}
use dra_example_driver.Startup.CommonSpec.{CommonWritten}
use dra_example_driver.Startup.Allocatable.{new_device_state_sound}
use dra_example_driver.World.{World, attempt}
use dra_example_driver.World.Files.{mkdir_all, make_dirs}
use dra_example_driver.Tests.Setup.{toy_host, driver_name, fresh_world}

abbrev pub flags : Flags
flags = record {
  node_name = codes "node";
  cdi_root = codes "/etc/cdi";
  num_devices = pos 2;
  kubelet_registrar_directory_path = codes "/var/lib/kubelet/plugins_registry";
  kubelet_plugins_directory_path = codes "/var/lib/kubelet/plugins";
  healthcheck_port = pos 51515;
  pod_uid = [];
  profile = codes "network";
  driver_name = driver_name;
}

abbrev started : DeviceState Text Text
started = record {
  driver_name = driver_name;
  cdi = record { driver_name = driver_name; cdi_class = codes "network" };
  driver_resources = (codes "node", (pool_device 0 ∷ pool_device 1 ∷ []) ∷ []) ∷ [];
  allocatable = (codes "network-0", pool_device 0) ∷ (codes "network-1", pool_device 1) ∷ [];
  config_handler = network_profile;
  status_builder = none;
}

abbrev started_world : World toy_host
started_world = (new_device_state toy_host flags (codes "node") fresh_world).1

started_lem :
    new_device_state toy_host flags (codes "node") fresh_world ≡ (ok started, started_world)
unfolding new_device_state enumerate_devices new_cdi_handler create_common_spec_file add_slices
    add_devices append_pool_devices pool_device show_decimal common_spec kind vendor mkdir_all
    make_dirs attempt lookup insert nat_eq list_eq
started_lem = refl

new_device_state_sound_example :
    (lookup (codes "network-" ++ show_decimal 1) started.allocatable ≡ (
      if ltb 1 (pos_part flags.num_devices)
      then some (record {
        name = codes "network-" ++ show_decimal 1;
        index = 1;
        device_type = codes "kubevirt-network-directory";
      })
      else none))
    × (started.driver_name ≡ flags.driver_name)
    × (started.cdi.cdi_class ≡ flags.profile)
    × CommonWritten toy_host started.cdi started_world
new_device_state_sound_example =
    new_device_state_sound toy_host flags (codes "node") fresh_world started_world started 1
      started_lem
