-- ===== src/Devices.antt =====
-- `PreparedDevice`, `PreparedDevices.GetDevices` and `DeviceState` of
-- cmd/dra-example-kubeletplugin/state.go. The decoders, the encoder, the clients and the path that a
-- `DeviceState` holds are parameters and parts of the world. The lock is held over the whole of each
-- call of `Prepare` and `Unprepare`, so that calls follow one another.
use dra_example_driver.Common.{
  ◌≡◌, sym, ◌∙◌, append-nil, append_assoc, Bool, Option, List, [], ◌∷◌, ◌++◌, Text, map, ℕ,
}
use dra_example_driver.Common.Dict.{Dict}
use dra_example_driver.Api.{Device, ContainerEdits, DeviceResult}
use dra_example_driver.Cdi.Names.{CdiHandler}
use dra_example_driver.Profile.{ConfigHandler}

pub record PreparedDevice : Type 0 where
  pub device : Device
  pub container_edits : Option ContainerEdits
  pub admin_access : Bool

-- The loop of `GetDevices`, with the devices so far.
append_devices : List PreparedDevice → List Device → List Device
append_devices [] devices = devices
append_devices (pd ∷ pds) devices = append_devices pds (devices ++ pd.device ∷ [])

unfoldable pub get_devices : List PreparedDevice → List Device
unfolding append_devices
get_devices pds = append_devices pds []

-- What `EnumerateDevices` says of a device: its name and its attributes.
pub record PoolDevice : Type 0 where
  pub name : Text
  pub index : ℕ
  pub device_type : Text

-- `resourceslice.DriverResources`: for each pool its slices, and for each slice its devices.
abbrev pub DriverResources : Type 0
DriverResources = Dict Text (List (List PoolDevice))

-- `BuildDeviceStatus` of a profile that implements `DeviceStatusBuilder`, whose statuses are in `S`.
abbrev pub StatusBuilder : Type 0 → Type 0
StatusBuilder S = Dict Text PoolDevice → DeviceResult → Option S

pub record DeviceState (P S : Type 0) : Type 0 where
  pub driver_name : Text
  pub cdi : CdiHandler
  pub driver_resources : DriverResources
  pub allocatable : Dict Text PoolDevice
  pub config_handler : ConfigHandler P
  pub status_builder : Option (StatusBuilder S)

append_devices-map :
    (pds : List PreparedDevice) (devices : List Device)
    → append_devices pds devices ≡ devices ++ map (λ pd. pd.device) pds
unfolding append_devices
append_devices-map [] devices = sym (append-nil devices)
append_devices-map (pd ∷ pds) devices =
    append_devices-map pds (devices ++ pd.device ∷ []) ∙ append_assoc devices (pd.device ∷ []) _

-- `GetDevices` is the kubelet's part of each prepared device, in order.
pub get_devices-map : (pds : List PreparedDevice) → get_devices pds ≡ map (λ pd. pd.device) pds
unfolding get_devices
get_devices-map pds = append_devices-map pds []
