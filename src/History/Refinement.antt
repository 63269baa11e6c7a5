-- ===== src/History/Refinement.antt =====
-- The calls of the driver refine the registry of prepared claims.
use dra_example_driver.Common.{
  ◌≡◌, refl, sym, ◌∙◌, ap, ◌⊎◌, inl, inr, true, Bool-cases, none, List, [], ◌∷◌, Text, ◌==◌, nat_eq,
  list_eq,
}
use mathlib.Core.Path.{fun_ext}
use dra_example_driver.Failure.{Outcome, ok, err, panicked, ok-inj}
use dra_example_driver.Api.{ResourceClaim, Device}
use dra_example_driver.Checkpoint.{
  Checkpoint, new_checkpoint, add_claim_to_checkpoint, remove_claim_from_checkpoint, has_claim,
}
use dra_example_driver.Checkpoint.Claims.{has_claim-add, has_claim-remove, ==-eq}
use dra_example_driver.CheckpointFile.Read.{stored}
use dra_example_driver.CheckpointFile.RoundTrip.{IsCodec, stored-Written}
use dra_example_driver.Compute.{MapOrder}
use dra_example_driver.Devices.{DeviceState}
use dra_example_driver.World.{Host, World}
use dra_example_driver.State.{prepare, unprepare}
use dra_example_driver.State.Prepare.{prepare_sound}
use dra_example_driver.State.Unprepare.{unprepare_sound}
use dra_example_driver.History.{Step, prepared, unprepared, outside, Reach, start, later}
use dra_example_driver.History.Checkpoints.{prepared_checkpoint, unprepared_checkpoint}
use dra_example_driver.History.Registry.{
  Registry, Event, prepare_returned, prepare_broke, unprepare_returned, unprepare_broke, elsewhere,
  enrol, strike, nobody, Allows, Trace, begin, next, surely, maybe, Trace-surely, Trace-maybe,
}

-- The claims in the checkpoint.
abbrev pub registry : Checkpoint → Registry
registry c uid = has_claim uid c

registry-add :
    (claim : ResourceClaim) (c : Checkpoint)
    → registry (add_claim_to_checkpoint claim c) ≡ enrol claim.uid (registry c)
registry-add claim c = fun_ext (λ uid. has_claim-add uid claim c)

registry-remove :
    (claim_uid : Text) (c : Checkpoint)
    → registry (remove_claim_from_checkpoint claim_uid c) ≡ strike claim_uid (registry c)
registry-remove claim_uid c = fun_ext (λ uid. has_claim-remove uid claim_uid c)

registry_new : registry new_checkpoint ≡ nobody
unfolding has_claim
registry_new = refl

enrol_again : (uid : Text) (r : Registry) → r uid ≡ true → r ≡ enrol uid r
enrol_again uid r h = fun_ext λ u. elim (Bool-cases (uid == u)) [
  | inl same ↦ rw same (ap r (sym (==-eq uid u same)) ∙ h)
  | inr other ↦ rw other refl
]

-- The registry that the file stands for after the event is one that the event allows.
abbrev Follows : (H : Host) → Event → Checkpoint → World H → Type 0
Follows H e c w' =
    (c' : Checkpoint) × (stored H w'.checkpoint_file ≡ ok c') × Allows e (registry c) (registry c')

module _ (H : Host) (codec : IsCodec H) (s : DeviceState H.Payload H.Status) where
  abbrev pub prepare_event : Text → Outcome (List Device) → Event
  prepare_event uid (ok ds) = prepare_returned uid
  prepare_event uid _ = prepare_broke uid

  abbrev pub unprepare_event : Text → Outcome (Unit {0}) → Event
  unprepare_event uid (ok a) = unprepare_returned uid
  unprepare_event uid _ = unprepare_broke uid

  prepare_broken :
      (claim : ResourceClaim) (w' : World H) (c : Checkpoint)
      → (stored H w'.checkpoint_file ≡ ok c)
        ⊎ (stored H w'.checkpoint_file ≡ ok (add_claim_to_checkpoint claim c))
      → Follows H (prepare_broke claim.uid) c w'
  prepare_broken claim w' c (inl same) = (c, same, inl refl)
  prepare_broken claim w' c (inr more) =
      (add_claim_to_checkpoint claim c, more, inr (registry-add claim c))

  prepare_lem :
      (order : MapOrder H.Payload) (claim : ResourceClaim) (w w' : World H)
      (r : Outcome (List Device)) (c : Checkpoint)
      → prepare H s order claim w ≡ (r, w')
      → stored H w.checkpoint_file ≡ ok c
      → Follows H (prepare_event claim.uid r) c w'
  prepare_lem order claim w w' (ok ds) c e at =
      let (c₁, pds, at₁, _, _, cases) = prepare_sound H s order claim w w' ds e in
      let same : c₁ ≡ c = ok-inj (sym at₁ ∙ at) in
      elim cases [
        | inl (has, _, (fs, q)) ↦ (
          c,
          ap (λ v. stored H v.checkpoint_file) q ∙ at,
          enrol_again claim.uid (registry c) (ap (has_claim claim.uid) (sym same) ∙ has),
        )
        | inr (_, (file, _, _)) ↦ (
          add_claim_to_checkpoint claim c,
          stored-Written H codec (add_claim_to_checkpoint claim c₁) w'.checkpoint_file file
              ∙ ap (λ x. ok (add_claim_to_checkpoint claim x)) same,
          registry-add claim c,
        )
      ]
  prepare_lem order claim w w' (err x) c e at =
      prepare_broken claim w' c (prepared_checkpoint H codec s order claim w w' (err x) c e at)
  prepare_lem order claim w w' panicked c e at =
      prepare_broken claim w' c (prepared_checkpoint H codec s order claim w w' panicked c e at)

  unprepare_broken :
      (claim_uid : Text) (w' : World H) (c : Checkpoint)
      → (stored H w'.checkpoint_file ≡ ok c)
        ⊎ (stored H w'.checkpoint_file ≡ ok (remove_claim_from_checkpoint claim_uid c))
        ⊎ (stored H w'.checkpoint_file ≡ ok new_checkpoint)
      → Follows H (unprepare_broke claim_uid) c w'
  unprepare_broken claim_uid w' c (inl same) = (c, same, inl refl)
  unprepare_broken claim_uid w' c (inr (inl less)) =
      (remove_claim_from_checkpoint claim_uid c, less, inr (inl (registry-remove claim_uid c)))
  unprepare_broken claim_uid w' c (inr (inr empty)) =
      (new_checkpoint, empty, inr (inr registry_new))

  unprepare_lem :
      (claim_uid : Text) (w w' : World H) (r : Outcome (Unit {0})) (c : Checkpoint)
      → unprepare H s claim_uid w ≡ (r, w')
      → stored H w.checkpoint_file ≡ ok c
      → Follows H (unprepare_event claim_uid r) c w'
  unprepare_lem claim_uid w w' (ok tt) c e at =
      let (c₁, at₁, (file, _, _)) = unprepare_sound H s claim_uid w w' e in
      (
        remove_claim_from_checkpoint claim_uid c,
        stored-Written H codec (remove_claim_from_checkpoint claim_uid c₁) w'.checkpoint_file file
            ∙ ap (λ x. ok (remove_claim_from_checkpoint claim_uid x)) (ok-inj (sym at₁ ∙ at)),
        registry-remove claim_uid c,
      )
  unprepare_lem claim_uid w w' (err x) c e at =
      unprepare_broken claim_uid w' c
        (unprepared_checkpoint H codec s claim_uid w w' (err x) c e at)
  unprepare_lem claim_uid w w' panicked c e at =
      unprepare_broken claim_uid w' c
        (unprepared_checkpoint H codec s claim_uid w w' panicked c e at)

  abbrev pub event : {new : List Text} {w w' : World H} → Step H s w new w' → Event
  event (prepared {r} order claim e) = prepare_event claim.uid r
  event (unprepared {r} claim_uid e) = unprepare_event claim_uid r
  event (outside tree cache cluster faults) = elsewhere

  -- The events of a history, from the latest to the first.
  abbrev pub events :
      {w₀ : World H} {uids : List Text} {w : World H} → Reach H s w₀ uids w → List Event
  events start = []
  events (later before step) = event step ∷ events before

  Step-Follows :
      {new : List Text} {w w' : World H} (step : Step H s w new w') (c : Checkpoint)
      → stored H w.checkpoint_file ≡ ok c
      → Follows H (event step) c w'
  Step-Follows {w} {w'} (prepared {r} order claim e) c at = prepare_lem order claim w w' r c e at
  Step-Follows {w} {w'} (unprepared {r} claim_uid e) c at = unprepare_lem claim_uid w w' r c e at
  Step-Follows (outside tree cache cluster faults) c at = (c, at, refl)

  -- Start without a checkpoint file, and let any calls of `Prepare` and `Unprepare` follow, that
  -- return, fail at any point or panic. If the serializer decodes what it encoded, then the checkpoint
  -- file can be decoded after them, and the claims in it are a registry that the events lead to: each
  -- call of `Prepare` that returned enrolled its claim, each call of `Unprepare` that returned struck
  -- its claim, and one that broke did so or did nothing, or, in `Unprepare`, struck all claims.
  pub Reach-Trace :
      {w₀ : World H} {uids : List Text} {w : World H}
      → w₀.checkpoint_file ≡ none
      → (reach : Reach H s w₀ uids w)
      → (c : Checkpoint) × (stored H w.checkpoint_file ≡ ok c) × Trace (events reach) (registry c)
  Reach-Trace empty start = (new_checkpoint, ap (stored H) empty, begin')
    where
      begin' : Trace [] (registry new_checkpoint)
      begin' = rw registry_new begin
  Reach-Trace empty (later before step) =
      let (c, at, trace) = Reach-Trace empty before in
      let (c', at', allows) = Step-Follows step c at in (c', at', next (event step) trace allows)

  same_checkpoint :
      (w : World H) (c c' : Checkpoint)
      → stored H w.checkpoint_file ≡ ok c
      → stored H w.checkpoint_file ≡ ok c'
      → c ≡ c'
  same_checkpoint w c c' at at' = ok-inj (sym at ∙ at')

  -- In such a history, a claim is in the checkpoint if a `Prepare` for it returned and since then no
  -- `Unprepare` for it returned and none at all broke.
  pub Reach-surely :
      {w₀ : World H} {uids : List Text} {w : World H} (uid : Text) (c : Checkpoint)
      → w₀.checkpoint_file ≡ none
      → (reach : Reach H s w₀ uids w) → stored H w.checkpoint_file ≡ ok c
      → surely uid (events reach) ≡ true
      → has_claim uid c ≡ true
  Reach-surely {w} uid c empty reach at h =
      let (c', at', trace) = Reach-Trace empty reach in
      ap (has_claim uid) (same_checkpoint w c c' at at') ∙ Trace-surely uid trace h

  -- In such a history, if a claim is in the checkpoint, then a `Prepare` was called for it after the
  -- last `Unprepare` for it that returned.
  pub Reach-maybe :
      {w₀ : World H} {uids : List Text} {w : World H} (uid : Text) (c : Checkpoint)
      → w₀.checkpoint_file ≡ none
      → (reach : Reach H s w₀ uids w) → stored H w.checkpoint_file ≡ ok c
      → has_claim uid c ≡ true
      → maybe uid (events reach) ≡ true
  Reach-maybe {w} uid c empty reach at h =
      let (c', at', trace) = Reach-Trace empty reach in
      Trace-maybe uid trace (ap (has_claim uid) (sym (same_checkpoint w c c' at at')) ∙ h)
