-- ===== src/State/RoundTrip.antt =====
-- Preparing a claim and then unpreparing it.
use dra_example_driver.Common.{◌≡◌, sym, ◌∙◌, ap, inl, inr, false, List}
use dra_example_driver.Failure.{ok, ok-inj}
use dra_example_driver.Api.{ResourceClaim, Device}
use dra_example_driver.Cdi.Cached.{SpecWritten}
use dra_example_driver.Cdi.ClaimSpec.{spec_name}
use dra_example_driver.Devices.{PreparedDevice, DeviceState}
use dra_example_driver.Compute.{MapOrder}
use dra_example_driver.Checkpoint.{
  Checkpoint, add_claim_to_checkpoint, remove_claim_from_checkpoint, has_claim,
}
use dra_example_driver.Checkpoint.Claims.{remove-add}
use dra_example_driver.CheckpointFile.Read.{stored}
use dra_example_driver.CheckpointFile.RoundTrip.{IsCodec, stored-Written}
use dra_example_driver.World.{Host, World}
use dra_example_driver.State.Defs.{prepare, unprepare}
use dra_example_driver.State.Prepare.{prepare_sound}
use dra_example_driver.State.Unprepare.{unprepare_sound}

module _ (H : Host) (s : DeviceState H.Payload H.Status) (order : MapOrder H.Payload)
    (claim : ResourceClaim) where
  -- If a claim that is not in the checkpoint is prepared and then unprepared, both without an error,
  -- and the serializer decodes what it encoded, then the checkpoint is what it was, the spec that was
  -- written to the CDI cache is removed under the same name, and no new temporary file is left behind.
  pub unprepare-prepare :
      IsCodec H
      → (c : Checkpoint) (w w' w'' : World H) (ds : List Device) → stored H w.checkpoint_file ≡ ok c
      → has_claim claim.uid c ≡ false
      → prepare H s order claim w ≡ (ok ds, w')
      → unprepare H s claim.uid w' ≡ (ok tt, w'')
      → (stored H w''.checkpoint_file ≡ ok c)
        × (w''.temp_files ≡ w.temp_files)
        × ((pds : List PreparedDevice) × SpecWritten H s.cdi claim.uid pds w.cache w'.cache
            × (H.remove_spec (spec_name H s.cdi claim.uid) w'.cache ≡ ok w''.cache))
  unprepare-prepare codec c w w' w'' ds at new e e' =
      let (c₁, pds, at₁, _, _, cases) = prepare_sound H s order claim w w' ds e in
      let (c₂, at₂, (file, removed, temps)) = unprepare_sound H s claim.uid w' w'' e' in
      let same : c₁ ≡ c = ok-inj (sym at₁ ∙ at) in
      elim cases [
        | inl (has, _, _) ↦ absurd cc
        | inr (_, (file₁, written, temps₁)) ↦
            let added : c₂ ≡ add_claim_to_checkpoint claim c₁ = ok-inj (
              sym at₂
              ∙ stored-Written H codec (add_claim_to_checkpoint claim c₁) w'.checkpoint_file
                  file₁) in
            (
              stored-Written H codec _ w''.checkpoint_file file
                  ∙ ap ok (
                      ap (remove_claim_from_checkpoint claim.uid)
                        (added ∙ ap (add_claim_to_checkpoint claim) same)
                      ∙ remove-add claim c new),
              temps ∙ temps₁,
              (pds, written, removed),
            )
      ]
