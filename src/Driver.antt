-- ===== src/Driver.antt =====
-- `PrepareResourceClaims`, `UnprepareResourceClaims` and `HandleError` of
-- cmd/dra-example-kubeletplugin/driver.go. A panic in one of the calls ends the whole request.
pub mod Batches
pub mod Keeps
pub mod Unprepared
use dra_example_driver.Common.{
  Bool, not, ◌&&◌, if◌then◌else◌, Option, none, some, List, [], ◌∷◌, ◌++◌, Text, ◌==◌, nat_eq,
  list_eq,
}
use dra_example_driver.Common.Dict.{Dict, insert}
use dra_example_driver.Failure.{Error, Outcome, ok, err, panicked, wrap, is_recoverable}
use dra_example_driver.Failure.Action.{Action, pure, panic, try, ◌>>=◌, ◌>>◌}
use dra_example_driver.Api.{ResourceClaim, Device}
use dra_example_driver.Devices.{DeviceState}
use dra_example_driver.Compute.{MapOrder}
use dra_example_driver.World.{Host, World}
use dra_example_driver.State.{prepare, unprepare}

-- `kubeletplugin.Device`
pub record PluginDevice : Type 0 where
  pub requests : List Text
  pub pool_name : Text
  pub device_name : Text
  pub cdi_device_ids : List Text

-- `kubeletplugin.PrepareResult`
pub record PrepareResult : Type 0 where
  pub devices : List PluginDevice
  pub error : Option Error

abbrev pub plugin_device : Device → PluginDevice
plugin_device d = record {
  requests = d.request_names;
  pool_name = d.pool_name;
  device_name = d.device_name;
  cdi_device_ids = d.cdi_device_ids;
}

-- The loop over the prepared devices, with those so far.
unfoldable pub append_plugin_devices : List Device → List PluginDevice → List PluginDevice
append_plugin_devices [] prepared = prepared
append_plugin_devices (d ∷ ds) prepared =
    append_plugin_devices ds (prepared ++ plugin_device d ∷ [])

-- `HandleError`: whether the context of the driver is cancelled, which has a cancel function or none.
unfoldable pub handle_error : Bool → Error → Bool
handle_error has_cancel e = not (is_recoverable e) && has_cancel

module _ (H : Host) (s : DeviceState H.Payload H.Status) where
  abbrev pub prepare_result : Outcome (List Device) → Action (World H) PrepareResult
  prepare_result (ok ds) = pure (record { devices = append_plugin_devices ds []; error = none })
  prepare_result (err e) =
      pure (record { devices = []; error = some (wrap "error preparing devices for claim" e) })
  prepare_result panicked = panic

  unfoldable pub prepare_resource_claim :
      MapOrder H.Payload → ResourceClaim → Action (World H) PrepareResult
  unfolding append_plugin_devices
  prepare_resource_claim order claim = do r ← try (prepare H s order claim); prepare_result r

  -- The loop over the claims, with the results so far. Each claim comes with the orders in which its
  -- call ranges over the map of configs.
  unfoldable pub prepare_claims :
      List (MapOrder H.Payload × ResourceClaim)
      → Dict Text PrepareResult
      → Action (World H) (Dict Text PrepareResult)
  unfolding prepare_resource_claim
  prepare_claims [] result = pure result
  prepare_claims ((order, claim) ∷ claims) result = do
    r ← prepare_resource_claim order claim
    prepare_claims claims (insert claim.uid r result)

  unfoldable pub prepare_resource_claims :
      List (MapOrder H.Payload × ResourceClaim) → Action (World H) (Dict Text PrepareResult)
  unfolding prepare_claims
  prepare_resource_claims claims = prepare_claims claims []

  -- The error of `unprepareResourceClaim`, or nil.
  abbrev pub unprepare_result : Outcome (Unit {0}) → Action (World H) (Option Error)
  unprepare_result (ok _) = pure none
  unprepare_result (err e) = pure (some (wrap "error unpreparing devices for claim" e))
  unprepare_result panicked = panic

  unfoldable pub unprepare_resource_claim : Text → Action (World H) (Option Error)
  unprepare_resource_claim claim_uid = do r ← try (unprepare H s claim_uid); unprepare_result r

  unfoldable pub unprepare_claims :
      List Text → Dict Text (Option Error) → Action (World H) (Dict Text (Option Error))
  unfolding unprepare_resource_claim
  unprepare_claims [] result = pure result
  unprepare_claims (claim_uid ∷ claims) result = do
    r ← unprepare_resource_claim claim_uid
    unprepare_claims claims (insert claim_uid r result)

  unfoldable pub unprepare_resource_claims : List Text → Action (World H) (Dict Text (Option Error))
  unfolding unprepare_claims
  unprepare_resource_claims claims = unprepare_claims claims []
