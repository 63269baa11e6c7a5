-- ===== src/History/Specs.antt =====
-- A claim in the checkpoint and its CDI spec in the cache, over one call.
use dra_example_driver.Common.{
  ◌≡◌, ◌≢◌, sym, ◌∙◌, ap, ◌⊎◌, inl, inr, Bool, true, false, Bool-cases, List, Text, ◌==◌,
  if◌then◌else◌, nat_eq, list_eq,
}
use mathlib.Core.Path.{subst}
use mathlib.Core.Bool.{true≢false}
use dra_example_driver.Failure.{Outcome, ok, err, panicked, ok-inj}
use dra_example_driver.Api.{ResourceClaim, Device, Spec}
use dra_example_driver.Cdi.ClaimSpec.{spec_name}
use dra_example_driver.Checkpoint.{
  Checkpoint, new_checkpoint, add_claim_to_checkpoint, remove_claim_from_checkpoint, has_claim,
}
use dra_example_driver.Checkpoint.Claims.{has_claim-add, has_claim-remove, ==-eq, ==-refl}
use dra_example_driver.CheckpointFile.Atomic.{Written}
use dra_example_driver.CheckpointFile.Read.{stored}
use dra_example_driver.CheckpointFile.RoundTrip.{IsCodec, stored-Written}
use dra_example_driver.Compute.{MapOrder}
use dra_example_driver.Devices.{DeviceState}
use dra_example_driver.State.{prepare, unprepare}
use dra_example_driver.State.Prepare.{HasSpec, SpecOrOld, prepare_sound, prepare_failed}
use dra_example_driver.State.Unprepare.{Cut, unprepare_sound, unprepare_failed}
use dra_example_driver.World.{Host, World}

-- What the CDI library promises of its cache: which names have a spec in it, that writing a spec adds
-- its name, and that removing one removes no other; and that specs of different claims have different
-- names.
pub record HoldsSpecs (H : Host) : Type 0 where
  pub has_spec : Text → H.Cache → Bool
  pub write_adds :
      (spec : Spec) (name : Text) (k k' : H.Cache)
      → H.write_spec spec name k ≡ ok k'
      → has_spec name k' ≡ true
  pub write_keeps :
      (spec : Spec) (name other : Text) (k k' : H.Cache)
      → H.write_spec spec name k ≡ ok k'
      → has_spec other k ≡ true
      → has_spec other k' ≡ true
  pub remove_keeps :
      (name other : Text) (k k' : H.Cache)
      → H.remove_spec name k ≡ ok k'
      → name ≢ other
      → has_spec other k ≡ true
      → has_spec other k' ≡ true
  pub name_determines :
      (vendor class a b : Text)
      → H.transient_spec_name vendor class a ≡ H.transient_spec_name vendor class b
      → a ≡ b

pub nothing : (uid : Text) → has_claim uid new_checkpoint ≢ true
unfolding has_claim
nothing uid h = cc

module _ (H : Host) (codec : IsCodec H) (s : DeviceState H.Payload H.Status) (L : HoldsSpecs H)
    (uid : Text) where
  abbrev pub Present : H.Cache → Type 0
  Present k = L.has_spec (spec_name H s.cdi uid) k ≡ true

  -- If the claim is in the checkpoint, then its spec is in the cache.
  abbrev pub Backed : World H → Type 0
  Backed w =
      (c : Checkpoint) × (stored H w.checkpoint_file ≡ ok c)
      × (has_claim uid c ≡ true → Present w.cache)

  Cut-Present :
      (claim_uid : Text) (w w' : World H)
      → Cut H s claim_uid w w'
      → claim_uid ≢ uid
      → Present w.cache
      → Present w'.cache
  unfolding spec_name
  Cut-Present claim_uid w w' gone other there =
      L.remove_keeps _ _ w.cache w'.cache gone
        (λ same. other (L.name_determines _ _ claim_uid uid same)) there

  module _ (order : MapOrder H.Payload) (claim : ResourceClaim) (w w' : World H) (c : Checkpoint)
      (at : stored H w.checkpoint_file ≡ ok c)
      (known : has_claim uid c ≡ true → Present w.cache) where
    spec-Present : HasSpec H s order claim w w' → Present w.cache → Present w'.cache
    spec-Present (pds, (version, _, written)) there =
        L.write_keeps _ _ _ w.cache w'.cache written there

    own-Present : HasSpec H s order claim w w' → claim.uid ≡ uid → Present w'.cache
    own-Present (pds, (version, _, written)) own =
        subst (λ u. L.has_spec (spec_name H s.cdi u) w'.cache ≡ true) own
          (L.write_adds _ _ w.cache w'.cache written)

    added :
        (c₁ : Checkpoint)
        → stored H w.checkpoint_file ≡ ok c₁
        → Written H (add_claim_to_checkpoint claim c₁) w'.checkpoint_file
        → HasSpec H s order claim w w'
        → Backed w'
    added c₁ at₁ file spec = (
      add_claim_to_checkpoint claim c₁,
      stored-Written H codec (add_claim_to_checkpoint claim c₁) w'.checkpoint_file file,
      λ has.
          let has' : (if claim.uid == uid then true else has_claim uid c₁) ≡ true =
            sym (has_claim-add uid claim c₁) ∙ has in
          let same : c₁ ≡ c = ok-inj (sym at₁ ∙ at) in
          elim (Bool-cases (claim.uid == uid)) [
            | inl own ↦ own-Present spec (==-eq claim.uid uid own)
            | inr other ↦
                let old : has_claim uid c₁ ≡ true = rw other at has' in
                spec-Present spec (known (sym (ap (has_claim uid) same) ∙ old))
          ],
    )

    kept : w'.checkpoint_file ≡ w.checkpoint_file → SpecOrOld H s order claim w w' → Backed w'
    kept same cache = (
      c,
      ap (stored H) same ∙ at,
      λ has. elim cache [
        | inl old ↦ subst Present (sym old) (known has)
        | inr spec ↦ spec-Present spec (known has)
      ],
    )

    broken :
        (r : Outcome (List Device))
        → prepare H s order claim w ≡ (r, w')
        → ((ds : List Device) → r ≢ ok ds)
        → Backed w'
    broken r e no_devices = elim (prepare_failed H s order claim w w' r e no_devices) [
      | inl (same, cache) ↦ kept same cache
      | inr (c₁, at₁, file, spec) ↦ added c₁ at₁ file spec
    ]

    pub prepare-Backed :
        (r : Outcome (List Device)) → prepare H s order claim w ≡ (r, w') → Backed w'
    prepare-Backed (ok ds) e =
        let (c₁, pds, at₁, _, _, cases) = prepare_sound H s order claim w w' ds e in
        elim cases [
          | inl (_, _, (fs, q)) ↦ subst Backed (sym q) (c, at, known)
          | inr (_, (file, spec, _)) ↦ added c₁ at₁ file (pds, spec)
        ]
    prepare-Backed (err x) e = broken (err x) e (λ ds q. cc)
    prepare-Backed panicked e = broken panicked e (λ ds q. cc)

  module _ (claim_uid : Text) (w w' : World H) (c : Checkpoint)
      (at : stored H w.checkpoint_file ≡ ok c)
      (known : has_claim uid c ≡ true → Present w.cache) where
    struck :
        (c₁ : Checkpoint)
        → stored H w.checkpoint_file ≡ ok c₁
        → Written H (remove_claim_from_checkpoint claim_uid c₁) w'.checkpoint_file
        → Cut H s claim_uid w w'
        → Backed w'
    struck c₁ at₁ file gone = (
      remove_claim_from_checkpoint claim_uid c₁,
      stored-Written H codec (remove_claim_from_checkpoint claim_uid c₁) w'.checkpoint_file file,
      λ has.
          let has' : (if uid == claim_uid then false else has_claim uid c₁) ≡ true =
            sym (has_claim-remove uid claim_uid c₁) ∙ has in
          let same : c₁ ≡ c = ok-inj (sym at₁ ∙ at) in
          elim (Bool-cases (uid == claim_uid)) [
            | inl own ↦ absurd (true≢false (sym (rw own at has')))
            | inr other ↦
                let old : has_claim uid c₁ ≡ true = rw other at has' in
                Cut-Present claim_uid w w' gone
                  (λ q. true≢false (sym (==-refl uid) ∙ ap (λ u. uid == u) (sym q) ∙ other))
                  (known (sym (ap (has_claim uid) same) ∙ old))
          ],
    )

    spared :
        (r : Outcome (Unit {0}))
        → unprepare H s claim_uid w ≡ (r, w')
        → r ≢ ok tt
        → claim_uid ≢ uid
        → Backed w'
    spared r e failed other = elim (unprepare_failed H s claim_uid w w' r e failed) [
      | inl (same, cache) ↦ (
        c,
        ap (stored H) same ∙ at,
        λ has. elim cache [
          | inl old ↦ subst Present (sym old) (known has)
          | inr gone ↦ Cut-Present claim_uid w w' gone other (known has)
        ],
      )
      | inr (inl (c₁, at₁, file, gone)) ↦ struck c₁ at₁ file gone
      | inr (inr (file, _)) ↦ (
        new_checkpoint,
        stored-Written H codec new_checkpoint w'.checkpoint_file file,
        λ has. absurd (nothing uid has),
      )
    ]

    pub unprepare-Backed :
        (r : Outcome (Unit {0}))
        → unprepare H s claim_uid w ≡ (r, w')
        → (claim_uid ≢ uid) ⊎ (r ≡ ok tt)
        → Backed w'
    unprepare-Backed (ok tt) e _ =
        let (c₁, at₁, (file, gone, _)) = unprepare_sound H s claim_uid w w' e in
        struck c₁ at₁ file gone
    unprepare-Backed (err x) e (inl other) = spared (err x) e (λ q. cc) other
    unprepare-Backed panicked e (inl other) = spared panicked e (λ q. cc) other
    unprepare-Backed (err x) e (inr returned) = absurd cc
    unprepare-Backed panicked e (inr returned) = absurd cc
