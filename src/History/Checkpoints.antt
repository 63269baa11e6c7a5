-- ===== src/History/Checkpoints.antt =====
-- What the checkpoint file holds after any sequence of calls.
use dra_example_driver.Common.{
  ◌≡◌, sym, ◌∙◌, ap, ◌≢◌, ◌⊎◌, inl, inr, true, false, Bool-cases, if◌then◌else◌, none, List, ◌∷◌,
  ◌++◌, Text, ◌==◌, nat_eq, list_eq, contains, arith,
}
use mathlib.Core.Path.{subst}
use dra_example_driver.Failure.{Outcome, ok, err, panicked, ok-inj}
use dra_example_driver.Api.{ResourceClaim, Device}
use dra_example_driver.Devices.{DeviceState}
use dra_example_driver.Compute.{MapOrder}
use dra_example_driver.Checkpoint.{
  Checkpoint, new_checkpoint, add_claim_to_checkpoint, remove_claim_from_checkpoint, has_claim,
}
use dra_example_driver.Checkpoint.Claims.{has_claim-add, has_claim-remove}
use dra_example_driver.CheckpointFile.Atomic.{Written}
use dra_example_driver.CheckpointFile.Read.{stored}
use dra_example_driver.CheckpointFile.RoundTrip.{IsCodec, stored-Written}
use dra_example_driver.World.{Host, World}
use dra_example_driver.State.{prepare, unprepare}
use dra_example_driver.State.Prepare.{SpecOrOld, HasSpec, prepare_sound, prepare_failed}
use dra_example_driver.State.Unprepare.{Cut, CutOrOld, unprepare_sound, unprepare_failed}
use dra_example_driver.History.{Step, prepared, unprepared, outside, Reach, start, later}

-- The checkpoint file can be decoded, and each claim in it is in the list.
abbrev pub Accounted : (H : Host) → List Text → World H → Type 0
Accounted H uids w =
    (c : Checkpoint) × (stored H w.checkpoint_file ≡ ok c)
    × ((uid : Text) → has_claim uid c ≡ true → contains uids uid ≡ true)

nothing : (uid : Text) → has_claim uid new_checkpoint ≢ true
unfolding has_claim
nothing uid h = cc

module _ (H : Host) (codec : IsCodec H) (s : DeviceState H.Payload H.Status) where
  prepared_failure :
      (w w' : World H) (c : Checkpoint)
      → stored H w.checkpoint_file ≡ ok c
      → (order : MapOrder H.Payload) (claim : ResourceClaim)
      → ((w'.checkpoint_file ≡ w.checkpoint_file) × SpecOrOld H s order claim w w')
        ⊎ ((c : Checkpoint) × (stored H w.checkpoint_file ≡ ok c)
            × Written H (add_claim_to_checkpoint claim c) w'.checkpoint_file
            × HasSpec H s order claim w w')
      → (stored H w'.checkpoint_file ≡ ok c)
        ⊎ (stored H w'.checkpoint_file ≡ ok (add_claim_to_checkpoint claim c))
  prepared_failure w w' c at order claim (inl (same, _)) = inl (ap (stored H) same ∙ at)
  prepared_failure w w' c at order claim (inr (c₁, at₁, file, _)) = inr (
      stored-Written H codec (add_claim_to_checkpoint claim c₁) w'.checkpoint_file file
      ∙ ap (λ x. ok (add_claim_to_checkpoint claim x)) (ok-inj (sym at₁ ∙ at)))

  unprepared_failure :
      (w w' : World H) (c : Checkpoint)
      → stored H w.checkpoint_file ≡ ok c
      → (claim_uid : Text)
      → ((w'.checkpoint_file ≡ w.checkpoint_file) × CutOrOld H s claim_uid w w')
        ⊎ ((c : Checkpoint) × (stored H w.checkpoint_file ≡ ok c)
            × Written H (remove_claim_from_checkpoint claim_uid c) w'.checkpoint_file
            × Cut H s claim_uid w w')
        ⊎ (Written H new_checkpoint w'.checkpoint_file × (w'.cache ≡ w.cache))
      → (stored H w'.checkpoint_file ≡ ok c)
        ⊎ (stored H w'.checkpoint_file ≡ ok (remove_claim_from_checkpoint claim_uid c))
        ⊎ (stored H w'.checkpoint_file ≡ ok new_checkpoint)
  unprepared_failure w w' c at claim_uid (inl (same, _)) = inl (ap (stored H) same ∙ at)
  unprepared_failure w w' c at claim_uid (inr (inl (c₁, at₁, file, _))) = inr (
      inl (
        stored-Written H codec (remove_claim_from_checkpoint claim_uid c₁) w'.checkpoint_file file
        ∙ ap (λ x. ok (remove_claim_from_checkpoint claim_uid x)) (ok-inj (sym at₁ ∙ at))))
  unprepared_failure w w' c at claim_uid (inr (inr (file, _))) =
      inr (inr (stored-Written H codec new_checkpoint w'.checkpoint_file file))

  -- A call of `Prepare` leaves the file as it was or adds the claim to it.
  pub prepared_checkpoint :
      (order : MapOrder H.Payload) (claim : ResourceClaim) (w w' : World H)
      (r : Outcome (List Device)) (c : Checkpoint)
      → prepare H s order claim w ≡ (r, w')
      → stored H w.checkpoint_file ≡ ok c
      → (stored H w'.checkpoint_file ≡ ok c)
        ⊎ (stored H w'.checkpoint_file ≡ ok (add_claim_to_checkpoint claim c))
  prepared_checkpoint order claim w w' (ok ds) c e at =
      let (c₁, pds, at₁, _, _, cases) = prepare_sound H s order claim w w' ds e in
      let same : c₁ ≡ c = ok-inj (sym at₁ ∙ at) in
      elim cases [
        | inl (_, _, (fs, q)) ↦ inl (ap (λ v. stored H v.checkpoint_file) q ∙ at)
        | inr (_, (file, _, _)) ↦ inr (
            stored-Written H codec (add_claim_to_checkpoint claim c₁) w'.checkpoint_file file
            ∙ ap (λ x. ok (add_claim_to_checkpoint claim x)) same)
      ]
  prepared_checkpoint order claim w w' (err x) c e at =
      prepared_failure w w' c at order claim
        (prepare_failed H s order claim w w' (err x) e (λ ds q. cc))
  prepared_checkpoint order claim w w' panicked c e at =
      prepared_failure w w' c at order claim
        (prepare_failed H s order claim w w' panicked e (λ ds q. cc))

  -- A call of `Unprepare` leaves the file as it was, removes the claim from it or empties it.
  pub unprepared_checkpoint :
      (claim_uid : Text) (w w' : World H) (r : Outcome (Unit {0})) (c : Checkpoint)
      → unprepare H s claim_uid w ≡ (r, w')
      → stored H w.checkpoint_file ≡ ok c
      → (stored H w'.checkpoint_file ≡ ok c)
        ⊎ (stored H w'.checkpoint_file ≡ ok (remove_claim_from_checkpoint claim_uid c))
        ⊎ (stored H w'.checkpoint_file ≡ ok new_checkpoint)
  unprepared_checkpoint claim_uid w w' (ok tt) c e at =
      let (c₁, at₁, (file, _, _)) = unprepare_sound H s claim_uid w w' e in
      inr (
        inl (
          stored-Written H codec (remove_claim_from_checkpoint claim_uid c₁) w'.checkpoint_file file
          ∙ ap (λ x. ok (remove_claim_from_checkpoint claim_uid x)) (ok-inj (sym at₁ ∙ at))))
  unprepared_checkpoint claim_uid w w' (err x) c e at =
      unprepared_failure w w' c at claim_uid
        (unprepare_failed H s claim_uid w w' (err x) e (λ q. cc))
  unprepared_checkpoint claim_uid w w' panicked c e at =
      unprepared_failure w w' c at claim_uid
        (unprepare_failed H s claim_uid w w' panicked e (λ q. cc))

  added :
      (uids : List Text) (claim : ResourceClaim) (c : Checkpoint)
      → ((uid : Text) → has_claim uid c ≡ true → contains uids uid ≡ true)
      → (uid : Text) → has_claim uid (add_claim_to_checkpoint claim c) ≡ true
      → contains (claim.uid ∷ uids) uid ≡ true
  added uids claim c known uid h =
      let h' : (if claim.uid == uid then true else has_claim uid c) ≡ true =
        sym (has_claim-add uid claim c) ∙ h in
      elim (Bool-cases (has_claim uid c)) [
        | inl has ↦ ground (arith, known uid has)
        | inr has ↦ ground arith
      ]

  removed :
      (uids : List Text) (claim_uid : Text) (c : Checkpoint)
      → ((uid : Text) → has_claim uid c ≡ true → contains uids uid ≡ true)
      → (uid : Text) → has_claim uid (remove_claim_from_checkpoint claim_uid c) ≡ true
      → contains uids uid ≡ true
  removed uids claim_uid c known uid h =
      let h' : (if uid == claim_uid then false else has_claim uid c) ≡ true =
        sym (has_claim-remove uid claim_uid c) ∙ h in
      elim (Bool-cases (has_claim uid c)) [
        | inl has ↦ known uid has
        | inr has ↦ absurd (ground arith)
      ]

  step_lem :
      (uids : List Text) {new : List Text} {w w' : World H}
      → Step H s w new w'
      → Accounted H uids w
      → Accounted H (new ++ uids) w'
  step_lem uids {new} {w} {w'} (prepared {r} order claim e) (c, at, known) =
      elim (prepared_checkpoint order claim w w' r c e at) [
        | inl same ↦ (c, same, λ uid h. ground (arith, known uid h))
        | inr more ↦ (add_claim_to_checkpoint claim c, more, added uids claim c known)
      ]
  step_lem uids {new} {w} {w'} (unprepared {r} claim_uid e) (c, at, known) =
      elim (unprepared_checkpoint claim_uid w w' r c e at) [
        | inl same ↦ (c, same, known)
        | inr (inl less) ↦
            (remove_claim_from_checkpoint claim_uid c, less, removed uids claim_uid c known)
        | inr (inr empty) ↦ (new_checkpoint, empty, λ uid h. absurd (nothing uid h))
      ]
  step_lem uids (outside tree cache cluster faults) known = known

  accounted :
      {w₀ : World H} {uids : List Text} {w : World H}
      → w₀.checkpoint_file ≡ none
      → Reach H s w₀ uids w
      → Accounted H uids w
  accounted empty start = (new_checkpoint, ap (stored H) empty, λ uid h. absurd (nothing uid h))
  accounted empty (later {before = uids} before step) = step_lem uids step (accounted empty before)

  -- Start without a checkpoint file, and let any calls of `Prepare` and `Unprepare` follow, that
  -- return, fail at any point or panic. If the serializer decodes what it encoded, then the checkpoint
  -- file can be decoded.
  pub Reach-Readable :
      {w₀ : World H} {uids : List Text} {w : World H}
      → w₀.checkpoint_file ≡ none
      → Reach H s w₀ uids w
      → (c : Checkpoint) × (stored H w.checkpoint_file ≡ ok c)
  Reach-Readable empty reach = let (c, at, _) = accounted empty reach in (c, at)

  -- Start without a checkpoint file, and let any calls of `Prepare` and `Unprepare` follow, that
  -- return, fail at any point or panic. If the serializer decodes what it encoded, then each claim in
  -- the checkpoint file is one that `Prepare` was called for.
  pub Reach-Accounted :
      {w₀ : World H} {uids : List Text} {w : World H} (c : Checkpoint) (uid : Text)
      → w₀.checkpoint_file ≡ none
      → Reach H s w₀ uids w
      → stored H w.checkpoint_file ≡ ok c
      → has_claim uid c ≡ true
      → contains uids uid ≡ true
  Reach-Accounted c uid empty reach at has =
      let (c₁, at₁, known) = accounted empty reach in
      known uid (subst (λ x. has_claim uid x ≡ true) (ok-inj (sym at ∙ at₁)) has)
