-- ===== src/History/Backed.antt =====
-- The claims in the checkpoint and the CDI specs in the cache, after any sequence of calls.
use dra_example_driver.Common.{◌≡◌, ◌≢◌, sym, ◌∙◌, ap, ◌⊎◌, true, none, List, Text, nat_eq, list_eq}
use mathlib.Core.Path.{subst}
use dra_example_driver.Failure.{ok, ok-inj}
use dra_example_driver.Checkpoint.{Checkpoint, new_checkpoint, has_claim}
use dra_example_driver.CheckpointFile.Read.{stored}
use dra_example_driver.CheckpointFile.RoundTrip.{IsCodec}
use dra_example_driver.Devices.{DeviceState}
use dra_example_driver.History.{Step, prepared, unprepared, outside, Reach, start, later}
use dra_example_driver.World.{Host, World}
use dra_example_driver.History.Specs.{
  HoldsSpecs, Present, Backed, prepare-Backed, unprepare-Backed, nothing,
}

module _ (H : Host) (codec : IsCodec H) (s : DeviceState H.Payload H.Status) (L : HoldsSpecs H)
    (uid : Text) where
  -- The step is no `Unprepare` of the claim that broke, and no change of the cache from outside.
  abbrev pub Undisturbing : {new : List Text} {w w' : World H} → Step H s w new w' → Type 0
  Undisturbing (prepared order claim e) = Unit
  Undisturbing (unprepared {r} claim_uid e) = (claim_uid ≢ uid) ⊎ (r ≡ ok tt)
  Undisturbing (outside {w} tree cache cluster faults) = cache ≡ w.cache

  abbrev pub Undisturbed :
      {w₀ : World H} {uids : List Text} {w : World H} → Reach H s w₀ uids w → Type 0
  Undisturbed start = Unit
  Undisturbed (later before step) = Undisturbed before × Undisturbing step

  Step-Backed :
      {new : List Text} {w w' : World H} (step : Step H s w new w')
      → Undisturbing step
      → Backed H codec s L uid w
      → Backed H codec s L uid w'
  Step-Backed {w} {w'} (prepared {r} order claim e) _ (c, at, known) =
      prepare-Backed H codec s L uid order claim w w' c at known r e
  Step-Backed {w} {w'} (unprepared {r} claim_uid e) calm (c, at, known) =
      unprepare-Backed H codec s L uid claim_uid w w' c at known r e calm
  Step-Backed (outside tree cache cluster faults) same (c, at, known) =
      (c, at, λ has. subst (Present H codec s L uid) (sym same) (known has))

  Reach-Backed :
      {w₀ : World H} {uids : List Text} {w : World H}
      → w₀.checkpoint_file ≡ none
      → (reach : Reach H s w₀ uids w) → Undisturbed reach
      → Backed H codec s L uid w
  Reach-Backed empty start _ =
      (new_checkpoint, ap (stored H) empty, λ has. absurd (nothing uid has))
  Reach-Backed empty (later before step) (calm, still) =
      Step-Backed step still (Reach-Backed empty before calm)

  -- Start without a checkpoint file, and let any calls follow, that return, fail at any point or panic,
  -- but no `Unprepare` of the claim that breaks, and no change of the CDI cache from outside. If the
  -- serializer decodes what it encoded, and the CDI cache holds the specs that are written until they
  -- are removed, under a name of its own for each claim, then the claim, if it is in the checkpoint
  -- file, has its spec in the cache.
  pub Reach-Present :
      {w₀ : World H} {uids : List Text} {w : World H} (c : Checkpoint)
      → w₀.checkpoint_file ≡ none
      → (reach : Reach H s w₀ uids w) → Undisturbed reach
      → stored H w.checkpoint_file ≡ ok c
      → has_claim uid c ≡ true
      → Present H codec s L uid w.cache
  Reach-Present c empty reach calm at has =
      let (c₁, at₁, known) = Reach-Backed empty reach calm in
      known (ap (has_claim uid) (ok-inj (sym at₁ ∙ at)) ∙ has)
