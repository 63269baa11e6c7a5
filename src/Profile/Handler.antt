-- ===== src/Profile/Handler.antt =====
-- internal/profiles/profiles.go: the interfaces of a device profile, and `NoopConfigHandler`.
-- A decoded configuration is a pointer: two of them are the same map key when their addresses are.
use dra_example_driver.Common.{
  Option, none, some, List, Text, ◌==◌, nat_eq, list_eq, if◌then◌else◌, ℕ,
}
use dra_example_driver.Failure.{Outcome, ok, err, failure}
use dra_example_driver.Api.{DeviceResult, ContainerEdits}

-- A non-nil `runtime.Object` whose value is of type `P`.
pub record Object (P : Type 0) : Type 0 where
  pub address : ℕ
  pub payload : P

-- `map[string]*cdiapi.ContainerEdits`
abbrev pub PerDeviceEdits : Type 0
PerDeviceEdits = Text → Option ContainerEdits

abbrev pub no_edits : PerDeviceEdits
no_edits device = none

abbrev pub set_edits : Text → ContainerEdits → PerDeviceEdits → PerDeviceEdits
set_edits device edits m d = if d == device then some edits else m d

-- `SchemeBuilder` is part of the decoder that the driver builds, which is a parameter elsewhere.
pub record ConfigHandler (P : Type 0) : Type 0 where
  pub validate : Option (Object P) → Outcome (Unit {0})
  pub apply_config : Text → Option (Object P) → List DeviceResult → Outcome PerDeviceEdits

abbrev noop_apply_config :
    {P : Type 0} → Text → Option (Object P) → List DeviceResult → Outcome PerDeviceEdits
noop_apply_config claim_name (some config) results = err (failure "configuration not allowed")
noop_apply_config claim_name none results = ok no_edits

abbrev noop_validate : {P : Type 0} → Option (Object P) → Outcome (Unit {0})
noop_validate config = err (failure "configuration not allowed")

abbrev pub noop_config_handler : {P : Type 0} → ConfigHandler P
noop_config_handler = record { validate = noop_validate; apply_config = noop_apply_config }
