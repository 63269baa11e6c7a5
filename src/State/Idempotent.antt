-- ===== src/State/Idempotent.antt =====
-- Preparing a claim again: the kubelet may ask for the same claim more than once.
use dra_example_driver.Common.{◌≡◌, refl, sym, ◌∙◌, ap, ◌≢◌, inl, inr, true, List, [], ◌∷◌}
use dra_example_driver.Failure.{ok}
use dra_example_driver.Api.{ResourceClaim, Device}
use dra_example_driver.Devices.{PreparedDevice, DeviceState, get_devices}
use dra_example_driver.Compute.{MapOrder}
use dra_example_driver.Checkpoint.{Checkpoint, add_claim_to_checkpoint, has_claim}
use dra_example_driver.Checkpoint.Claims.{has_claim-add, ==-refl}
use dra_example_driver.CheckpointFile.Read.{stored, read_checkpoint_calm}
use dra_example_driver.CheckpointFile.RoundTrip.{IsCodec, stored-Written}
use dra_example_driver.World.{Host, World}
use dra_example_driver.State.Defs.{compute, prepare}
use dra_example_driver.State.Prepare.{prepare_sound}

module _ (H : Host) (s : DeviceState H.Payload H.Status) (order : MapOrder H.Payload)
    (claim : ResourceClaim) where
  pub prepare_recorded :
      (w : World H) (c : Checkpoint) (pds : List PreparedDevice)
      → w.faults ≡ []
      → stored H w.checkpoint_file ≡ ok c
      → has_claim claim.uid c ≡ true
      → compute H s order claim ≡ ok pds
      → pds ≢ []
      → prepare H s order claim w ≡ (ok (get_devices pds), w)
  unfolding prepare
  prepare_recorded w c [] calm at has e nonempty = absurd (nonempty refl)
  prepare_recorded w c (pd ∷ pds) calm at has e nonempty =
      rw (read_checkpoint_calm H w calm, at, has, e) refl

  added : (c : Checkpoint) → has_claim claim.uid (add_claim_to_checkpoint claim c) ≡ true
  added c = has_claim-add claim.uid claim c ∙ rw (==-refl claim.uid) refl

  -- Once `Prepare` has returned devices, it returns the same devices again and changes nothing, if no
  -- system call fails, the serializer decodes what it encoded, and the map of configs is visited in
  -- the same order.
  pub prepare-prepare :
      IsCodec H
      → (w w' : World H) (ds : List Device) → prepare H s order claim w ≡ (ok ds, w')
      → ds ≢ []
      → w'.faults ≡ []
      → prepare H s order claim w' ≡ (ok ds, w')
  unfolding get_devices
  prepare-prepare codec w w' ds e nonempty calm =
      let (c, pds, at, value, devices, cases) = prepare_sound H s order claim w w' ds e in
      let some_device : pds ≢ [] = λ q. nonempty (devices ∙ ap get_devices q) in
      elim cases [
        | inl (has, _, (fs, same)) ↦
            prepare_recorded w' c pds calm (ap (λ v. stored H v.checkpoint_file) same ∙ at) has
              value some_device
            ∙ ap (λ x. (ok x, w')) (sym devices)
        | inr (_, (file, _, _)) ↦
            prepare_recorded w' (add_claim_to_checkpoint claim c) pds calm
              (stored-Written H codec (add_claim_to_checkpoint claim c) w'.checkpoint_file file)
              (added c) value some_device
            ∙ ap (λ x. (ok x, w')) (sym devices)
      ]
