-- ===== src/State/Duplicates.antt =====
-- Preparing a claim in which no device of the driver is allocated.
use dra_example_driver.Common.{
  ◌≡◌, refl, sym, ◌∙◌, ap, inl, inr, ℕ, ◌+◌, List, [], ◌∷◌, Text, length, length-append, keep,
  keep-append, nat_eq, list_eq,
}
use dra_example_driver.Failure.{ok, ok-inj}
use dra_example_driver.Api.{ResourceClaim, Device}
use dra_example_driver.Checkpoint.{Checkpoint, has_uid, add_claim_to_checkpoint, prepared_claim}
use dra_example_driver.Checkpoint.Claims.{==-refl}
use dra_example_driver.CheckpointFile.Read.{stored}
use dra_example_driver.CheckpointFile.RoundTrip.{IsCodec, stored-Written}
use dra_example_driver.Compute.{MapOrder}
use dra_example_driver.Devices.{DeviceState}
use dra_example_driver.World.{Host, World}
use dra_example_driver.State.Defs.{compute, prepare}
use dra_example_driver.State.Prepare.{prepare_sound}

-- How many entries the checkpoint has for a claim.
abbrev pub entries : Text → Checkpoint → ℕ
entries uid c = length (keep (has_uid uid) c.prepared_claims)

entries-add :
    (claim : ResourceClaim) (c : Checkpoint)
    → entries claim.uid (add_claim_to_checkpoint claim c) ≡ entries claim.uid c + 1
unfolding add_claim_to_checkpoint prepared_claim
entries-add claim c =
    let one : length (keep (has_uid claim.uid) (prepared_claim claim ∷ [])) ≡ 1 =
      rw (==-refl claim.uid) refl in
    ap length (keep-append (has_uid claim.uid) c.prepared_claims (prepared_claim claim ∷ []))
    ∙ length-append (keep (has_uid claim.uid) c.prepared_claims) _
    ∙ ap (λ n. entries claim.uid c + n) one

module _ (H : Host) (s : DeviceState H.Payload H.Status) (codec : IsCodec H) where
  -- Each `Prepare` that returns for a claim without a device of this driver, whether the claim is in
  -- the checkpoint or not, adds one more entry for it to the checkpoint, if the serializer decodes what
  -- it encoded.
  pub prepare_duplicates :
      (order : MapOrder H.Payload) (claim : ResourceClaim) (w w' : World H) (c : Checkpoint)
      (ds : List Device)
      → stored H w.checkpoint_file ≡ ok c
      → compute H s order claim ≡ ok []
      → prepare H s order claim w ≡ (ok ds, w')
      → (c' : Checkpoint) × (stored H w'.checkpoint_file ≡ ok c')
        × (entries claim.uid c' ≡ entries claim.uid c + 1)
  prepare_duplicates order claim w w' c ds at computed e =
      let (c₁, pds, at₁, computed₁, devices, cases) = prepare_sound H s order claim w w' ds e in
      let same : c₁ ≡ c = ok-inj (sym at₁ ∙ at) in
      elim cases [
        | inl (_, some_device, _) ↦ absurd (some_device (ok-inj (sym computed₁ ∙ computed)))
        | inr (_, (file, _, _)) ↦ (
          add_claim_to_checkpoint claim c₁,
          stored-Written H codec (add_claim_to_checkpoint claim c₁) w'.checkpoint_file file,
          entries-add claim c₁ ∙ ap (λ x. entries claim.uid x + 1) same,
        )
      ]
