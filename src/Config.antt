-- ===== src/Config.antt =====
-- `GetOpaqueDeviceConfigs` of cmd/dra-example-kubeletplugin/state.go, and the choice of the config
-- for a request in `computeDeviceConfig`. The decoder of the parameters is a parameter; it gives
-- each object that it returns an address of its own, here the next of a counter.
pub mod Decoded
pub mod Complete
pub mod Precedence
use mathlib.Core.List.{reverse}
use dra_example_driver.Common.{
  ℕ, ◌+◌, Bool, true, false, ◌||◌, Option, none, some, List, [], ◌∷◌, ◌++◌, Text, ◌==◌, contains,
  nat_eq, list_eq, if◌then◌else◌,
}
use dra_example_driver.Failure.{Error, Outcome, ok, err, failure, about, wrap, map_error, ◌>>=◌}
use dra_example_driver.Api.{
  ConfigSource, from_class, from_claim, other_source, OpaqueParameters, DeviceConfiguration,
}
use dra_example_driver.Profile.{Object}

pub record OpaqueDeviceConfig (P : Type 0) : Type 0 where
  pub requests : List Text
  pub config : Option (Object P)

-- The first loop: `classConfigs` and `claimConfigs`.
unfoldable pub split_sources :
    List DeviceConfiguration
    → List DeviceConfiguration
    → List DeviceConfiguration
    → Outcome (List DeviceConfiguration × List DeviceConfiguration)
split_sources [] of_class of_claim = ok (of_class, of_claim)
split_sources (c ∷ cs) of_class of_claim =
    let when_class = split_sources cs (of_class ++ c ∷ []) of_claim in
    let when_claim = split_sources cs of_class (of_claim ++ c ∷ []) in
    elim c.source [
      | from_class ↦ when_class
      | from_claim ↦ when_claim
      | other_source s ↦ err (about "invalid config source" s)
    ]

module _ {P : Type 0} (decode : Text → Outcome P) (driver_name : Text) where
  abbrev pub decode_own : ℕ → List Text → OpaqueParameters → Outcome (Option (OpaqueDeviceConfig P))
  decode_own address requests o =
      if o.driver == driver_name
      then (map_error (wrap "error decoding config parameters") (decode o.parameters) >>= λ p. ok (
          some (record {
            requests = requests;
            config = some (record { address = address; payload = p });
          })))
      else ok none

  -- One round of the second loop; `none` if the config is another driver's.
  abbrev pub decode_one :
      ℕ → List Text → Option OpaqueParameters → Outcome (Option (OpaqueDeviceConfig P))
  decode_one address requests none =
      err (failure "only opaque parameters are supported by this driver")
  decode_one address requests (some o) = decode_own address requests o

  -- The second loop; `done` is `resultConfigs`.
  unfoldable pub decode_all :
      ℕ
      → List DeviceConfiguration
      → List (OpaqueDeviceConfig P)
      → Outcome (List (OpaqueDeviceConfig P))
  decode_all address [] done = ok done
  decode_all address (c ∷ cs) done = decode_one address c.requests c.opaque >>= λ decoded.
      elim decoded [
        | none ↦ decode_all address cs done
        | some d ↦ decode_all (address + 1) cs (done ++ d ∷ [])
      ]

  unfoldable pub get_opaque_device_configs :
      List DeviceConfiguration → Outcome (List (OpaqueDeviceConfig P))
  unfolding split_sources decode_all
  get_opaque_device_configs possible =
      split_sources possible [] [] >>= λ split. decode_all 0 (split.0 ++ split.1) []

-- `len(c.Requests) == 0 || slices.Contains(c.Requests, result.Request)`
abbrev pub applies : Text → List Text → Bool
applies request [] = true
applies request (r ∷ rs) = contains (r ∷ rs) request

module _ {P : Type 0} where
  unfoldable pub first_applying : Text → List (OpaqueDeviceConfig P) → Option (OpaqueDeviceConfig P)
  first_applying request [] = none
  first_applying request (c ∷ cs) =
      if applies request c.requests then some c else first_applying request cs

  -- The loop over `slices.Backward(configs)`.
  unfoldable pub select : Text → List (OpaqueDeviceConfig P) → Option (OpaqueDeviceConfig P)
  unfolding first_applying
  select request configs = first_applying request (reverse configs)

  -- `&OpaqueDeviceConfig{}`, which `slices.Insert` puts in front.
  abbrev pub default_config : OpaqueDeviceConfig P
  default_config = record { requests = []; config = none }
