-- ===== src/Compute.antt =====
-- `computeDeviceConfig` and `checkAdminAccess` of cmd/dra-example-kubeletplugin/state.go. Go ranges
-- over `configResultsMap` twice, in an order that it does not fix: `MapOrder` holds the two orders
-- of a call.
pub mod Applied
pub mod NetworkProfile
pub mod Chosen
pub mod Groups
pub mod Described
pub mod Routed
use dra_example_driver.Common.Dict.{Dict, lookup}
use dra_example_driver.Common.{
  Bool, true, false, Option, none, some, List, [], ◌∷◌, ◌++◌, Text, ◌==◌, nat_eq, list_eq,
  if◌then◌else◌, map,
}
use dra_example_driver.Failure.{Outcome, ok, err, failure, about, wrap, describe, map_error, ◌>>=◌}
use dra_example_driver.Api.{DeviceResult, Allocation, ResourceClaim, Device}
use dra_example_driver.Profile.{Object, PerDeviceEdits, no_edits, ConfigHandler}
use dra_example_driver.Config.{
  OpaqueDeviceConfig, get_opaque_device_configs, select, default_config,
}
use dra_example_driver.Cdi.Names.{get_claim_devices}
use dra_example_driver.Devices.{PreparedDevice, DeviceState, PoolDevice}

-- An entry of `configResultsMap`: a config, nil for the default, and its results.
abbrev pub Group : Type 0 → Type 0
Group P = Option (Object P) × List DeviceResult

-- The orders in which the two loops range over the map.
pub record MapOrder (P : Type 0) : Type 0 where
  pub applied : List (Group P) → List (Group P)
  pub collected : List (Group P) → List (Group P)

-- `result.AdminAccess != nil && *result.AdminAccess`
abbrev is_true : Option Bool → Bool
is_true none = false
is_true (some b) = b

has_admin_access : List DeviceResult → Bool
has_admin_access [] = false
has_admin_access (r ∷ rs) = if is_true r.admin_access then true else has_admin_access rs

unfoldable pub check_admin_access : ResourceClaim → Bool
unfolding has_admin_access
check_admin_access claim = elim claim.allocation [
  | none ↦ false
  | some a ↦ has_admin_access a.results
]

-- `for k, v := range containerEdits { perDeviceCDIContainerEdits[k] = v }`
abbrev pub merge_edits : PerDeviceEdits → PerDeviceEdits → PerDeviceEdits
merge_edits new old device = elim (new device) [ none ↦ old device | some edits ↦ some edits ]

module _ {P : Type 0} where
  -- Equality of interface values: of nil, or of pointers.
  abbrev pub same_object : Option (Object P) → Option (Object P) → Bool
  same_object none none = true
  same_object (some a) (some b) = a.address == b.address
  same_object _ _ = false

  -- `configResultsMap[c] = append(configResultsMap[c], &result)`
  unfoldable pub add_result : Option (Object P) → DeviceResult → List (Group P) → List (Group P)
  add_result c r [] = (c, r ∷ []) ∷ []
  add_result c r ((d, rs) ∷ groups) =
      if same_object c d then (d, rs ++ r ∷ []) ∷ groups else (d, rs) ∷ add_result c r groups

  abbrev add_selected :
      Option (OpaqueDeviceConfig P) → DeviceResult → List (Group P) → List (Group P)
  add_selected none r groups = groups
  add_selected (some c) r groups = add_result c.config r groups

  -- One round of the loop that fills `configResultsMap`.
  abbrev pub place :
      Text
      → Dict Text PoolDevice
      → List (OpaqueDeviceConfig P)
      → DeviceResult
      → List (Group P)
      → Outcome (List (Group P))
  place driver_name allocatable configs r groups =
      if r.driver == driver_name
      then elim (lookup r.device allocatable) [
        | none ↦ err (about "requested device is not allocatable" r.device)
        | some device ↦ ok (add_selected (select r.request configs) r groups)
      ]
      else ok groups

  unfoldable pub group_results :
      Text
      → Dict Text PoolDevice
      → List (OpaqueDeviceConfig P)
      → List DeviceResult
      → List (Group P)
      → Outcome (List (Group P))
  unfolding add_result
  group_results driver_name allocatable configs [] groups = ok groups
  group_results driver_name allocatable configs (r ∷ rs) groups =
      place driver_name allocatable configs r groups >>= λ groups'.
      group_results driver_name allocatable configs rs groups'

  unfoldable pub apply_configs :
      ConfigHandler P → Text → List (Group P) → PerDeviceEdits → Outcome PerDeviceEdits
  apply_configs handler claim_name [] edits = ok edits
  apply_configs handler claim_name ((config, results) ∷ groups) edits =
      map_error (wrap "error applying config") (handler.apply_config claim_name config results)
      >>= λ new. apply_configs handler claim_name groups (merge_edits new edits)

module _ {P S : Type 0} (qualified_name : Text → Text → Text → Text) (s : DeviceState P S) where
  -- The device that the last loop appends for a result.
  abbrev pub prepared : ResourceClaim → Bool → PerDeviceEdits → DeviceResult → PreparedDevice
  prepared claim admin edits r = record {
    device = record {
      request_names = r.request ∷ [];
      pool_name = r.pool;
      device_name = r.device;
      cdi_device_ids = get_claim_devices qualified_name s.cdi claim.uid (r.device ∷ []);
    };
    container_edits = edits r.device;
    admin_access = admin;
  }

  unfoldable pub collect_devices :
      ResourceClaim → Bool → PerDeviceEdits → List (Group P) → List PreparedDevice
  collect_devices claim admin edits [] = []
  collect_devices claim admin edits ((config, results) ∷ groups) =
      map (prepared claim admin edits) results ++ collect_devices claim admin edits groups

module _ {P S : Type 0} (decode : Text → Outcome P) (qualified_name : Text → Text → Text → Text)
    (s : DeviceState P S) where
  abbrev pub compute_allocated :
      MapOrder P → ResourceClaim → Allocation → Outcome (List PreparedDevice)
  compute_allocated order claim a =
      map_error (describe "error getting opaque device configs")
        (get_opaque_device_configs decode s.driver_name a.config)
      >>= λ configs.
          group_results s.driver_name s.allocatable (default_config ∷ configs) a.results []
          >>= λ groups.
              apply_configs s.config_handler claim.name (order.applied groups) no_edits >>= λ edits.
              ok (
                collect_devices qualified_name s claim (check_admin_access claim) edits
                  (order.collected groups))

  unfoldable pub compute_device_config : MapOrder P → ResourceClaim → Outcome (List PreparedDevice)
  unfolding check_admin_access group_results apply_configs collect_devices
  compute_device_config order claim = elim claim.allocation [
    | none ↦ err (failure "claim not yet allocated")
    | some a ↦ compute_allocated order claim a
  ]
