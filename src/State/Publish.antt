-- ===== src/State/Publish.antt =====
-- `updateDeviceStatus`, and the part of `prepareDevices` that publishes the status of the devices.
use dra_example_driver.Common.{
  Option, none, some, List, [], ◌∷◌, ◌++◌, Text, ◌==◌, nat_eq, list_eq, if◌then◌else◌,
}
use dra_example_driver.Common.Dict.{Dict}
use dra_example_driver.Failure.Action.{Action, pure, lift, gets, modify, try, ◌>>=◌}
use dra_example_driver.Api.{DeviceResult, ResourceClaim}
use dra_example_driver.Devices.{DeviceState, StatusBuilder, PoolDevice}
use dra_example_driver.World.{Host, World}

module _ (H : Host) where
  -- A call of the API server, which changes no other part of the world.
  abbrev pub on_cluster : {A : Type 0} → Action H.Cluster A → Action (World H) A
  on_cluster m w = ((m w.cluster).0, record w { cluster = (m w.cluster).1 })

  -- One attempt: only `Status.Devices` differs from what the server returned.
  abbrev pub update_once : Text → Text → List H.Status → Action H.Cluster (Unit {0})
  update_once namespace name statuses = do
    got ← gets (λ c. H.get_claim namespace name c)
    claim ← lift got
    updated ← gets (λ c. H.update_status (record claim { device_statuses = statuses }) c)
    cluster ← lift updated
    modify (λ c. cluster)

  unfoldable pub update_device_status : Text → Text → List H.Status → Action (World H) (Unit {0})
  update_device_status namespace name statuses =
      on_cluster (H.retry_on_conflict (update_once namespace name statuses))

  abbrev pub with_status : Option H.Status → List H.Status → List H.Status
  with_status none statuses = statuses
  with_status (some status) statuses = statuses ++ status ∷ []

  -- `deviceStatuses`: the statuses of the results of this driver that have one.
  unfoldable pub device_statuses :
      Text
      → Dict Text PoolDevice
      → StatusBuilder H.Status
      → List DeviceResult
      → List H.Status
      → List H.Status
  device_statuses driver_name allocatable builder [] statuses = statuses
  device_statuses driver_name allocatable builder (r ∷ rs) statuses =
      device_statuses driver_name allocatable builder rs
        (if r.driver == driver_name then with_status (builder allocatable r) statuses else statuses)

  -- A failed update is logged and dropped.
  abbrev pub publish_statuses : ResourceClaim → List H.Status → Action (World H) (Unit {0})
  publish_statuses claim [] = pure tt
  publish_statuses claim (s ∷ ss) = do
    dropped ← try (update_device_status claim.namespace claim.name (s ∷ ss))
    pure tt

  abbrev pub publish_with :
      DeviceState H.Payload H.Status
      → ResourceClaim
      → List DeviceResult
      → Option (StatusBuilder H.Status)
      → Action (World H) (Unit {0})
  publish_with s claim results none = pure tt
  publish_with s claim results (some builder) =
      publish_statuses claim (device_statuses s.driver_name s.allocatable builder results [])

  -- The builder is there if the profile implements `DeviceStatusBuilder`.
  unfoldable pub publish :
      DeviceState H.Payload H.Status
      → ResourceClaim
      → List DeviceResult
      → Action (World H) (Unit {0})
  unfolding device_statuses update_device_status
  publish s claim results = publish_with s claim results s.status_builder
