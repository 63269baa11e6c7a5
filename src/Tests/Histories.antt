-- ===== src/Tests/Histories.antt =====
-- The theorems on sequences of calls at a concrete one: a claim is prepared and then unprepared.
use dra_example_driver.Common.{◌≡◌, refl, true, [], ◌∷◌, ◌++◌, nat_eq, list_eq}
use dra_example_driver.Failure.{ok}
use dra_example_driver.Checkpoint.{Checkpoint, new_checkpoint, add_claim_to_checkpoint, has_claim}
use dra_example_driver.CheckpointFile.Read.{stored}
use dra_example_driver.History.{Reach, later, unprepared}
use dra_example_driver.History.Registry.{Trace, surely, maybe}
use dra_example_driver.History.Refinement.{registry, events, Reach-Trace, Reach-surely, Reach-maybe}
use dra_example_driver.Tests.Calls.{toy_codec, both_calls, prepared_has}
use dra_example_driver.Tests.Setup.{toy_host, state, claim, fresh_world}
use dra_example_driver.Tests.Runs.{runs, unprepared_world}

abbrev there_and_back : Reach toy_host state fresh_world ([] ++ claim.uid ∷ []) unprepared_world
there_and_back = later both_calls (unprepared claim.uid runs.2)

Reach-Trace_example :
    (c : Checkpoint) × (stored toy_host unprepared_world.checkpoint_file ≡ ok c)
    × Trace (events toy_host toy_codec state there_and_back) (registry c)
Reach-Trace_example = Reach-Trace toy_host toy_codec state refl there_and_back

surely_lem : surely claim.uid (events toy_host toy_codec state both_calls) ≡ true
unfolding surely list_eq nat_eq
surely_lem = refl

Reach-surely_example : has_claim claim.uid (add_claim_to_checkpoint claim new_checkpoint) ≡ true
Reach-surely_example =
    Reach-surely toy_host toy_codec state claim.uid (add_claim_to_checkpoint claim new_checkpoint)
      refl both_calls runs.6 surely_lem

Reach-maybe_example : maybe claim.uid (events toy_host toy_codec state both_calls) ≡ true
Reach-maybe_example =
    Reach-maybe toy_host toy_codec state claim.uid (add_claim_to_checkpoint claim new_checkpoint)
      refl both_calls runs.6 prepared_has
