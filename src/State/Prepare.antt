-- ===== src/State/Prepare.antt =====
-- What `Prepare` returns, and what it leaves in the checkpoint file and in the CDI cache.
use dra_example_driver.Common.{
  ◌≡◌, refl, ◌≢◌, ◌⊎◌, inl, inr, String, true, false, Bool-cases, Option, List, [], ◌∷◌,
}
use mathlib.Core.Path.{subst}
use dra_example_driver.Failure.{Outcome, ok, err, panicked, describe, map_error}
use dra_example_driver.Failure.Action.{pure, on_error, continue, ◌>>◌}
use dra_example_driver.Failure.Triples.{
  Triple, Post, given-Triple, pure-Triple, bind-Triple, on_error-Triple, weaken-Triple,
}
use dra_example_driver.Api.{ResourceClaim, Device}
use dra_example_driver.Cdi.Cached.{SpecWritten, IgnoresCache, create_claim_spec_file-Triple}
use dra_example_driver.Cdi.ClaimSpec.{create_claim_spec_file}
use dra_example_driver.Devices.{PreparedDevice, DeviceState, get_devices}
use dra_example_driver.Compute.{MapOrder}
use dra_example_driver.Checkpoint.{Checkpoint, add_claim_to_checkpoint, has_claim}
use dra_example_driver.CheckpointFile.{write_checkpoint}
use dra_example_driver.CheckpointFile.Atomic.{Written, IgnoresFiles, write_checkpoint-Triple}
use dra_example_driver.CheckpointFile.Read.{stored, read_checkpoint-cases}
use dra_example_driver.World.{Host, World}
use dra_example_driver.State.Defs.{
  compute, prepare_devices, prepare_fresh, prepare_restored, restore_claim_from_checkpoint, prepare,
}
use dra_example_driver.State.Steps.{IgnoresSurroundings, prepare_devices-Triple}

module _ (H : Host) (s : DeviceState H.Payload H.Status) (order : MapOrder H.Payload)
    (claim : ResourceClaim) where
  -- The file holds the checkpoint with the claim added, and the cache the spec of the claim.
  abbrev pub Fresh : Checkpoint → List PreparedDevice → World H → World H → Type 0
  Fresh c pds w w' =
      Written H (add_claim_to_checkpoint claim c) w'.checkpoint_file
      × SpecWritten H s.cdi claim.uid pds w.cache w'.cache
      × (w'.temp_files ≡ w.temp_files)

  -- The cache is what writing a spec of the claim made of it.
  abbrev pub HasSpec : World H → World H → Type 0
  HasSpec w w' = (pds : List PreparedDevice) × SpecWritten H s.cdi claim.uid pds w.cache w'.cache

  abbrev pub SpecOrOld : World H → World H → Type 0
  SpecOrOld w w' = (w'.cache ≡ w.cache) ⊎ HasSpec w w'

  module _ (c : Checkpoint) (w₀ : World H) where
    abbrev Kept : World H → Type 0
    Kept w =
        ((w.checkpoint_file ≡ w₀.checkpoint_file) × (w.temp_files ≡ w₀.temp_files))
        × (w.cache ≡ w₀.cache)

    abbrev KeptFiles : World H → Type 0
    KeptFiles w = (w.checkpoint_file ≡ w₀.checkpoint_file) × (w.temp_files ≡ w₀.temp_files)

    abbrev Failed : World H → Type 0
    Failed w =
        ((w.checkpoint_file ≡ w₀.checkpoint_file) × SpecOrOld w₀ w)
        ⊎ (Written H (add_claim_to_checkpoint claim c) w.checkpoint_file × HasSpec w₀ w)

    prepare_fresh-Triple :
        Triple Kept
          (prepare_fresh H s order claim c)
          (λ ds w.
            (pds : List PreparedDevice) × (compute H s order claim ≡ ok pds)
            × (ds ≡ get_devices pds)
            × Fresh c pds w₀ w)
          Failed
    unfolding prepare_fresh
    prepare_fresh-Triple =
        bind-Triple (on_error (describe "prepare failed") (prepare_devices H s order claim)) _
          (on_error-Triple _ (prepare_devices H s order claim) (
            weaken-Triple _ (λ w h. h) (λ a w h. h) (λ w h. inl (h.0.0, inl h.1))
              (prepare_devices-Triple kept-Ignores s order claim)))
          after
      where
        kept-Ignores : IgnoresSurroundings Kept
        kept-Ignores = record { surroundings = λ w t k fs h. h }

        files-Ignores : IgnoresCache KeptFiles
        files-Ignores = record { cache = λ w k h. h }

        written-Ignores :
            (pds : List PreparedDevice)
            → IgnoresFiles H (λ w. SpecWritten H s.cdi claim.uid pds w₀.cache w.cache)
        written-Ignores pds = record { files = λ w f ts fs h. h }

        after :
            (pds : List PreparedDevice)
            → Triple
                (λ w. Kept w × (compute H s order claim ≡ ok pds))
                (on_error
                    (describe "unable to create CDI spec file for claim")
                    (create_claim_spec_file H s.cdi claim.uid pds)
                  >> (on_error
                        (describe "unable to sync to checkpoint")
                        (write_checkpoint H (add_claim_to_checkpoint claim c))
                      >> pure (get_devices pds)))
                (λ ds w.
                  (pds : List PreparedDevice) × (compute H s order claim ≡ ok pds)
                  × (ds ≡ get_devices pds)
                  × Fresh c pds w₀ w)
                Failed
        after pds = given-Triple _ λ e.
            bind-Triple _ _
              (on_error-Triple _ _ (
                weaken-Triple (create_claim_spec_file H s.cdi claim.uid pds) (λ w h. h) (λ a w h. h)
                  (λ w h. inl (h.0.0, inl h.1))
                  (create_claim_spec_file-Triple w₀.cache s.cdi claim.uid files-Ignores pds)))
              λ _.
                bind-Triple _ _
                  (on_error-Triple _ _ (
                    weaken-Triple (write_checkpoint H (add_claim_to_checkpoint claim c))
                      (λ w h. (h.1, h.0.0, h.0.1)) (λ a w h. h)
                      (λ w h. elim h.1 [
                        | inl old ↦ inl (old, inr (pds, h.0))
                        | inr new ↦ inr (new, (pds, h.0))
                      ])
                      (write_checkpoint-Triple H (add_claim_to_checkpoint claim c)
                        w₀.checkpoint_file w₀.temp_files (written-Ignores pds))))
                  λ _. pure-Triple (get_devices pds) (λ w h. (pds, e, refl, (h.1, h.0, h.2)))

  -- What holds of the world after a call that returned devices, and after one that failed.
  abbrev pub Returned : World H → List Device → World H → Type 0
  Returned w ds w' =
      (c : Checkpoint) × (pds : List PreparedDevice) × (stored H w.checkpoint_file ≡ ok c)
      × (compute H s order claim ≡ ok pds)
      × (ds ≡ get_devices pds)
      × (((has_claim claim.uid c ≡ true)
            × (pds ≢ [])
            × ((fs : List (Option String)) × (w' ≡ record w { faults = fs })))
          ⊎ (((has_claim claim.uid c ≡ false) ⊎ (pds ≡ [])) × Fresh c pds w w'))

  abbrev pub NotReturned : World H → World H → Type 0
  NotReturned w w' =
      ((w'.checkpoint_file ≡ w.checkpoint_file) × SpecOrOld w w')
      ⊎ ((c : Checkpoint) × (stored H w.checkpoint_file ≡ ok c)
          × Written H (add_claim_to_checkpoint claim c) w'.checkpoint_file
          × HasSpec w w')

  prepare_lem : (w : World H) → Post (Returned w) (NotReturned w) (prepare H s order claim w)
  unfolding prepare
  prepare_lem w =
      let (fs, cases) = read_checkpoint-cases H w in
      elim cases [
        | inl e ↦ rw e (read (stored H w.checkpoint_file) fs refl)
        | inr (message, e) ↦ rw e (inl (refl, inl refl))
      ]
    where
      fresh :
          (c : Checkpoint) (fs : List (Option String))
          → stored H w.checkpoint_file ≡ ok c
          → ((pds : List PreparedDevice)
              → compute H s order claim ≡ ok pds
              → (has_claim claim.uid c ≡ false) ⊎ (pds ≡ []))
          → Post
              (Returned w)
              (NotReturned w)
              (prepare_fresh H s order claim c (record w { faults = fs }))
      fresh c fs at new =
          (weaken-Triple {E = NotReturned w} {Q = Returned w} (prepare_fresh H s order claim c)
              (λ v h. h) (λ ds v (pds, e, d, f). (c, pds, at, e, d, inr (new pds e, f)))
              (λ v h. elim h [ inl old ↦ inl old | inr (f, g) ↦ inr (c, at, f, g) ])
              (prepare_fresh-Triple c w)).run
            (record w { faults = fs }) ((refl, refl), refl)

      restored :
          (c : Checkpoint) (fs : List (Option String)) (r : Outcome (List PreparedDevice))
          → stored H w.checkpoint_file ≡ ok c
          → has_claim claim.uid c ≡ true
          → compute H s order claim ≡ r
          → Post (Returned w) (NotReturned w) (
              continue
                (map_error (describe "unable to restore from checkpoint") r)
                (prepare_restored H s order claim c)
                (record w { faults = fs }))
      restored c fs (ok []) at has e = fresh c fs at (λ pds q. inr cc)
      restored c fs (ok (pd ∷ pds)) at has e =
          (c, pd ∷ pds, at, e, refl, inl (has, (λ q. cc), (fs, refl)))
      restored c fs (err x) at has e = inl (refl, inl refl)
      restored c fs panicked at has e = inl (refl, inl refl)

      read :
          (r : Outcome Checkpoint) (fs : List (Option String))
          → stored H w.checkpoint_file ≡ r
          → Post (Returned w) (NotReturned w) (
              continue
                (map_error (describe "unable to sync from checkpoint") r)
                (λ c v.
                  continue
                    (map_error
                      (describe "unable to restore from checkpoint")
                      (restore_claim_from_checkpoint H s order c claim))
                    (prepare_restored H s order claim c)
                    v)
                (record w { faults = fs }))
      read (ok c) fs at = elim (Bool-cases (has_claim claim.uid c)) [
        | inl has ↦ rw has (restored c fs (compute H s order claim) at has refl)
        | inr has ↦ rw has (fresh c fs at (λ pds q. inl has))
      ]
      read (err x) fs at = inl (refl, inl refl)
      read panicked fs at = inl (refl, inl refl)

  -- If `Prepare` returns devices, then the checkpoint could be read, and the devices are those that
  -- the configs of the claim give. If the claim is in the checkpoint and has a device of this driver,
  -- then nothing has changed but the list of faults. Otherwise the checkpoint file holds the claim
  -- besides what it held before, the CDI cache is what writing the spec of these devices made of it,
  -- and no new temporary file is left behind.
  pub prepare_sound :
      (w w' : World H) (ds : List Device)
      → prepare H s order claim w ≡ (ok ds, w')
      → (c : Checkpoint) × (pds : List PreparedDevice) × (stored H w.checkpoint_file ≡ ok c)
        × (compute H s order claim ≡ ok pds)
        × (ds ≡ get_devices pds)
        × (((has_claim claim.uid c ≡ true)
              × (pds ≢ [])
              × ((fs : List (Option String)) × (w' ≡ record w { faults = fs })))
            ⊎ (((has_claim claim.uid c ≡ false) ⊎ (pds ≡ [])) × Fresh c pds w w'))
  prepare_sound w w' ds e = subst (Post (Returned w) (NotReturned w)) e (prepare_lem w)

  -- If `Prepare` does not return devices, then the checkpoint file is what it was, and the CDI cache is
  -- too, or is what writing a spec of the claim made of it; or the checkpoint file holds the claim
  -- besides what it held before, and the CDI cache is what writing a spec of the claim made of it.
  pub prepare_failed :
      (w w' : World H) (r : Outcome (List Device))
      → prepare H s order claim w ≡ (r, w')
      → ((ds : List Device) → r ≢ ok ds)
      → ((w'.checkpoint_file ≡ w.checkpoint_file) × SpecOrOld w w')
        ⊎ ((c : Checkpoint) × (stored H w.checkpoint_file ≡ ok c)
            × Written H (add_claim_to_checkpoint claim c) w'.checkpoint_file
            × HasSpec w w')
  prepare_failed w w' (ok ds) e no_devices = absurd (no_devices ds refl)
  prepare_failed w w' (err x) e no_devices =
      subst (Post (Returned w) (NotReturned w)) e (prepare_lem w)
  prepare_failed w w' panicked e no_devices =
      subst (Post (Returned w) (NotReturned w)) e (prepare_lem w)
