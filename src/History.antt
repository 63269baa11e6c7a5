-- ===== src/History.antt =====
-- The calls of `Prepare` and `Unprepare` (cmd/dra-example-kubeletplugin/state.go) one after the
-- other, with whatever happens to the rest of the world in between. The mutex of `DeviceState` keeps
-- the calls apart.
pub mod Checkpoints
pub mod Registry
pub mod Refinement
pub mod Specs
pub mod Backed
use dra_example_driver.Common.{◌≡◌, String, Option, List, [], ◌∷◌, ◌++◌, Text}
use dra_example_driver.Failure.{Outcome, ok}
use dra_example_driver.Api.{ResourceClaim, Device}
use dra_example_driver.Devices.{DeviceState}
use dra_example_driver.Compute.{MapOrder}
use dra_example_driver.CheckpointFile.Read.{stored}
use dra_example_driver.World.{Host, World, Tree}
use dra_example_driver.State.{prepare, unprepare}

module _ (H : Host) (s : DeviceState H.Payload H.Status) where
  -- One call, however it ends, or a change of the world from outside, which leaves the driver's own
  -- files alone. The list names the claims that the call prepares.
  pub data Step : World H → List Text → World H → Type 0 where
    prepared :
        {w w' : World H} {r : Outcome (List Device)} (order : MapOrder H.Payload)
        (claim : ResourceClaim)
        → prepare H s order claim w ≡ (r, w')
        → Step w (claim.uid ∷ []) w'
    unprepared :
        {w w' : World H} {r : Outcome (Unit {0})} (claim_uid : Text)
        → unprepare H s claim_uid w ≡ (r, w')
        → Step w [] w'
    outside :
        {w : World H} (tree : Tree) (cache : H.Cache) (cluster : H.Cluster)
        (faults : List (Option String))
        → Step w [] (record w { tree = tree; cache = cache; cluster = cluster; faults = faults })

  -- The worlds that follow on `w₀`, with the claims that were prepared on the way, the latest first.
  pub data Reach (w₀ : World H) : List Text → World H → Type 0 where
    start : Reach w₀ [] w₀
    later :
        {before new : List Text} {w w' : World H}
        → Reach w₀ before w
        → Step w new w'
        → Reach w₀ (new ++ before) w'
