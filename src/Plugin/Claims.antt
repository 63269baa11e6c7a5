-- ===== src/Plugin/Claims.antt =====
-- Which claims are in the checkpoint after a whole run of the plugin.
use dra_example_driver.Common.{
  ◌≡◌, inl, inr, All, List, [], ◌∷◌, Text, true, false, contains, if◌then◌else◌, nat_eq, list_eq,
  sym, ◌∙◌, ap, ◌≢◌, ◌||◌, ◌==◌, ◌++◌, map, arith, All-weaken, All-append_left, All-append_right,
  Bool-cases,
}
use mathlib.Core.Path.{subst}
use dra_example_driver.Failure.{Outcome, ok, ok-inj}
use dra_example_driver.Api.{ResourceClaim}
use dra_example_driver.Checkpoint.{
  Checkpoint, new_checkpoint, add_claim_to_checkpoint, remove_claim_from_checkpoint, has_claim,
}
use dra_example_driver.CheckpointFile.Read.{stored}
use dra_example_driver.CheckpointFile.RoundTrip.{IsCodec}
use dra_example_driver.Compute.{MapOrder}
use dra_example_driver.Devices.{DeviceState}
use dra_example_driver.Driver.Keeps.{keeps_lem}
use dra_example_driver.Flags.{Flags, KubeClientConfig}
use dra_example_driver.History.Checkpoints.{prepared_checkpoint, unprepared_checkpoint}
use dra_example_driver.Plugin.{Request, prepare_request, unprepare_request, run_app}
use dra_example_driver.Services.{Services}
use dra_example_driver.Plugin.Keeps.{Kept, run_app_keeps}
use dra_example_driver.State.{prepare, unprepare}
use dra_example_driver.World.{Host, World}
use dra_example_driver.World.Keeps.{Keeps}
use dra_example_driver.Checkpoint.Claims.{has_claim-add, has_claim-remove, ==-refl, ==-eq}

-- The UIDs of the claims that the requests ask to prepare.
abbrev pub requested : {P : Type 0} → List (Request P) → List Text
requested [] = []
requested (prepare_request claims ∷ requests) =
    map (λ (order, claim). claim.uid) claims ++ requested requests
requested (unprepare_request uids ∷ requests) = requested requests

contains_self : (xs : List Text) → All (λ x. contains xs x ≡ true) xs
contains_self [] = tt
contains_self (x ∷ xs) =
    (ground (arith, ==-refl x), All-weaken (λ y h. ground arith) xs (contains_self xs))

nothing : (uid : Text) → has_claim uid new_checkpoint ≢ true
unfolding has_claim
nothing uid h = cc

module _ (H : Host) (codec : IsCodec H) (c : Checkpoint) (uids : List Text) where
  -- A claim in the checkpoint `c'` was in `c`, or is one of the list.
  abbrev Known : Checkpoint → Type 0
  Known c' = (uid : Text) → has_claim uid c' ≡ true → (has_claim uid c || contains uids uid) ≡ true

  abbrev AllKnown : World H → Type 0
  AllKnown w = (c' : Checkpoint) × (stored H w.checkpoint_file ≡ ok c') × Known c'

  add-Known :
      (claim : ResourceClaim) (c' : Checkpoint)
      → contains uids claim.uid ≡ true
      → Known c'
      → Known (add_claim_to_checkpoint claim c')
  add-Known claim c' asked known uid h =
      let h' : (if claim.uid == uid then true else has_claim uid c') ≡ true =
        sym (has_claim-add uid claim c') ∙ h in
      elim (Bool-cases (claim.uid == uid)) [
        | inl same ↦
            let listed : contains uids uid ≡ true =
              subst (λ u. contains uids u ≡ true) (==-eq claim.uid uid same) asked in
            ground arith
        | inr other ↦ known uid (rw other at h')
      ]

  remove-Known :
      (claim_uid : Text) (c' : Checkpoint)
      → Known c'
      → Known (remove_claim_from_checkpoint claim_uid c')
  remove-Known claim_uid c' known uid h =
      let h' : (if uid == claim_uid then false else has_claim uid c') ≡ true =
        sym (has_claim-remove uid claim_uid c') ∙ h in
      elim (Bool-cases (has_claim uid c')) [
        | inl has ↦ known uid has
        | inr has ↦ absurd (ground arith)
      ]

  module _ (s : DeviceState H.Payload H.Status) where
    prepare-Keeps :
        (order : MapOrder H.Payload) (claim : ResourceClaim)
        → contains uids claim.uid ≡ true
        → Keeps AllKnown (prepare H s order claim)
    prepare-Keeps order claim asked = keeps_lem (prepare H s order claim) λ w w' r e p.
        elim (prepared_checkpoint H codec s order claim w w' r p.0 e p.1) [
          | inl same ↦ (p.0, same, p.2)
          | inr more ↦ (add_claim_to_checkpoint claim p.0, more, add-Known claim p.0 asked p.2)
        ]

    unprepare-Keeps : (claim_uid : Text) → Keeps AllKnown (unprepare H s claim_uid)
    unprepare-Keeps claim_uid = keeps_lem (unprepare H s claim_uid) λ w w' r e p.
        elim (unprepared_checkpoint H codec s claim_uid w w' r p.0 e p.1) [
          | inl same ↦ (p.0, same, p.2)
          | inr (inl less) ↦
              (remove_claim_from_checkpoint claim_uid p.0, less, remove-Known claim_uid p.0 p.2)
          | inr (inr empty) ↦ (new_checkpoint, empty, λ uid h. absurd (nothing uid h))
        ]

    claims-Keeps :
        (claims : List (MapOrder H.Payload × ResourceClaim))
        → All (λ uid. contains uids uid ≡ true) (map (λ (order, claim). claim.uid) claims)
        → All (λ (order, claim). Keeps AllKnown (prepare H s order claim)) claims
    claims-Keeps [] _ = tt
    claims-Keeps ((order, claim) ∷ claims) (h, hs) =
        (prepare-Keeps order claim h, claims-Keeps claims hs)

  kept :
      (V : Services) (s : DeviceState H.Payload H.Status) (requests : List (Request H.Payload))
      → All (λ uid. contains uids uid ≡ true) (requested requests)
      → All
          (Kept {H = H} {P = AllKnown}
            (record { tree = λ w t fs h. h })
            (record { cache = λ w k h. h })
            V
            s)
          requests
  kept V s [] _ = tt
  kept V s (prepare_request claims ∷ requests) h =
      let named = map (λ (order, claim). claim.uid) claims in
      (
        claims-Keeps s claims (All-append_left _ named (requested requests) h),
        kept V s requests (All-append_right _ named (requested requests) h),
      )
  kept V s (unprepare_request uids ∷ requests) h = (tt, kept V s requests h)

-- If the checkpoint file can be decoded when the plugin is started, and the serializer decodes what it
-- encoded, then each claim that is in the checkpoint when the plugin has ended was in it at the start,
-- or a request of the kubelet asked to prepare it, whatever failed or panicked on the way.
pub run_app_claims :
    (H : Host) (codec : IsCodec H) (V : Services) (arguments : List Text)
    (applied : Outcome (Unit {0})) (flags : Flags) (kube : KubeClientConfig V.Float)
    (node_name : Text) (requests : List (Request H.Payload)) (w w' : World H)
    (r : Outcome (Unit {0})) (c c' : Checkpoint) (uid : Text)
    → stored H w.checkpoint_file ≡ ok c
    → run_app H V arguments applied flags kube node_name requests w ≡ (r, w')
    → stored H w'.checkpoint_file ≡ ok c'
    → has_claim uid c' ≡ true
    → (has_claim uid c || contains (requested requests) uid) ≡ true
run_app_claims H codec V arguments applied flags kube node_name requests w w' r c c' uid at e at'
      has =
    let uids = requested requests in
    let (c₁, at₁, known) =
      run_app_keeps {H = H} {P = AllKnown H codec c uids} (record { tree = λ w t fs h. h })
        (record { cache = λ w k h. h }) V requests
        (λ s. kept H codec c uids V s requests (contains_self uids))
        (unprepare-Keeps H codec c uids) arguments applied flags kube node_name w w' r e
        (c, at, λ uid h. ground arith) in
    known uid (ap (has_claim uid) (ok-inj (sym at₁ ∙ at')) ∙ has)
