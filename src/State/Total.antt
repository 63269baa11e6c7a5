-- ===== src/State/Total.antt =====
-- `Prepare` returns devices if no system call fails, nothing is in the way of its directories and the
-- third-party code that it calls returns.
use dra_example_driver.Common.{
  ◌≡◌, refl, sym, false, Bool-cases, inl, inr, none, some, List, [], ◌∷◌, ◌++◌, Text, ◌==◌, nat_eq,
  list_eq, All,
}
use mathlib.Core.Path.{subst}
use dra_example_driver.Failure.{Outcome, ok, err, panicked, wrap, describe}
use dra_example_driver.Failure.Action.{Action, pure, on_error, ◌>>◌}
use dra_example_driver.Failure.Triples.{
  Post, given-Triple, pure-Triple, bind-Triple, on_error-Triple, weaken-Triple,
}
use dra_example_driver.Api.{DeviceResult, Allocation, ResourceClaim, Device}
use dra_example_driver.Cdi.ClaimSpec.{claim_spec, spec_name, create_claim_spec_file}
use dra_example_driver.Devices.{PreparedDevice, DeviceState, get_devices}
use dra_example_driver.Compute.{MapOrder}
use dra_example_driver.Compute.Groups.{own_results}
use dra_example_driver.Checkpoint.{Checkpoint, add_claim_to_checkpoint, has_claim}
use dra_example_driver.Checkpoint.V1.{to_v1}
use dra_example_driver.CheckpointFile.{write_checkpoint}
use dra_example_driver.CheckpointFile.Read.{stored, read_checkpoint_calm}
use dra_example_driver.CheckpointFile.RoundTrip.{write_checkpoint_calm}
use dra_example_driver.ClaimDir.{base_dir}
use dra_example_driver.ClaimDir.Confined.{IsPlain, claim_root-IsPlain, claim_dir_plain}
use dra_example_driver.ClaimDir.Smooth.{Returns, Smooth}
use dra_example_driver.ClaimDir.Total.{create_claim_directory-Returns}
use dra_example_driver.ClaimDir.Way.{Clear}
use dra_example_driver.Naming.{extract_stable_claim_name}
use dra_example_driver.Paths.{FilePath}
use dra_example_driver.World.{Host, World}
use dra_example_driver.State.Publish.{publish, publish_with}
use dra_example_driver.State.Defs.{
  create_directories, compute, prepare_allocated, prepare_devices, prepare_fresh, prepare,
}

-- Where the directories of the claim's requests lie.
abbrev pub directory_of : ResourceClaim → FilePath
directory_of claim = base_dir ++ extract_stable_claim_name claim.name ∷ []

module _ (H : Host) (s : DeviceState H.Payload H.Status) (claim : ResourceClaim)
    (plain : IsPlain claim.name) (k : H.Cache) where
  abbrev Ready : World H → Type 0
  Ready = Smooth H (directory_of claim) k []

  create_directories-Returns :
      (results : List DeviceResult)
      → All (λ r. IsPlain r.request) (own_results s.driver_name results)
      → Returns Ready (create_directories H s claim results) (λ u. Ready)
  unfolding create_directories
  create_directories-Returns [] _ = pure-Triple tt (λ w h. h)
  create_directories-Returns (r ∷ rs) h = elim (Bool-cases (r.driver == s.driver_name)) [
    | inl mine ↦
        let (named, others) = rw mine at h in
        rw mine (
          bind-Triple {Q = λ u. Ready} _ _
            (bind-Triple {Q = λ d. Ready} _ _
              (on_error-Triple (wrap "failed to create claim directory") _ (
                create_claim_directory-Returns H (extract_stable_claim_name claim.name) r.request k
                  claim.name r.device (claim_root-IsPlain claim.name plain)
                  (claim_dir_plain claim.name r.request plain named)))
              λ _. pure-Triple tt (λ w g. g))
            λ _. create_directories-Returns rs others)
    | inr foreign ↦
        let others = rw foreign at h in
        rw foreign (
          bind-Triple {Q = λ u. Ready} (pure tt) _ (pure-Triple tt (λ w g. g))
            λ _. create_directories-Returns rs others)
  ]

  module _ (order : MapOrder H.Payload) (a : Allocation) (pds : List PreparedDevice)
      (allocated : claim.allocation ≡ some a) (computed : compute H s order claim ≡ ok pds)
      (silent : s.status_builder ≡ none)
      (named : All (λ r. IsPlain r.request) (own_results s.driver_name a.results)) where
    publish-Returns : Returns Ready (publish H s claim a.results) (λ u. Ready)
    unfolding publish
    publish-Returns =
        subst (λ b. Returns Ready (publish_with H s claim a.results b) (λ u. Ready)) (sym silent)
          (pure-Triple tt (λ w h. h))

    prepare_devices-Returns :
        Returns Ready (prepare_devices H s order claim) (λ x w. Ready w × (x ≡ pds))
    unfolding prepare_devices
    prepare_devices-Returns =
        subst
          (λ o. Returns Ready (prepare_allocated H s order claim o) (λ x w. Ready w × (x ≡ pds)))
          (sym allocated)
          (bind-Triple {Q = λ u. Ready} _ _ (create_directories-Returns a.results named) λ _.
            rw computed (
              bind-Triple {Q = λ x w. Ready w × (x ≡ pds)} (λ w. (ok pds, w)) _
                (record { run = λ w h. (h, refl) })
                λ x.
                  bind-Triple {Q = λ u w. Ready w × (x ≡ pds)} _ _
                    (record {
                      run = λ w h.
                          (weaken-Triple {P = λ v. Ready v} {E = λ v. ⊥}
                              {Q = λ u v. Ready v × (x ≡ pds)} (publish H s claim a.results)
                              (λ v g. g) (λ u v g. (g, h.1)) (λ v g. g) publish-Returns).run
                            w h.0;
                    })
                    λ _. pure-Triple x (λ w h. h)))

    module _ (c : Checkpoint) (version : Text) (k' : H.Cache) (blob : H.Blob)
        (versioned : H.minimum_required_version (claim_spec H s.cdi claim.uid pds) ≡ ok version)
        (written : H.write_spec
            (record (claim_spec H s.cdi claim.uid pds) { version = version })
            (spec_name H s.cdi claim.uid)
            k
          ≡ ok k')
        (encoded : H.encode_checkpoint (to_v1 (add_claim_to_checkpoint claim c)) ≡ ok blob) where
      create_claim_spec_file-Returns :
          Returns Ready (create_claim_spec_file H s.cdi claim.uid pds) (λ u w. w.faults ≡ [])
      unfolding create_claim_spec_file
      create_claim_spec_file-Returns = record { run = λ w h. rw (versioned, h.1, written) h.0 }

      write_checkpoint-Returns :
          Returns
            (λ w. w.faults ≡ [])
            (write_checkpoint H (add_claim_to_checkpoint claim c))
            (λ u w. Unit {0})
      write_checkpoint-Returns = record {
        run = λ w h.
            rw (write_checkpoint_calm H (add_claim_to_checkpoint claim c) w blob h encoded) tt;
      }

      -- What `Prepare` does with the devices.
      abbrev finish : List PreparedDevice → Action (World H) (List Device)
      finish x =
          on_error (describe "unable to create CDI spec file for claim")
            (create_claim_spec_file H s.cdi claim.uid x)
          >> (on_error (describe "unable to sync to checkpoint")
                (write_checkpoint H (add_claim_to_checkpoint claim c))
              >> pure (get_devices x))

      finish-Returns : Returns Ready (finish pds) (λ ds w. ds ≡ get_devices pds)
      finish-Returns =
          bind-Triple {Q = λ u w. w.faults ≡ []} _ _
            (on_error-Triple (describe "unable to create CDI spec file for claim") _
              create_claim_spec_file-Returns)
            λ _.
              bind-Triple {Q = λ u w. Unit {0}} _ _
                (on_error-Triple (describe "unable to sync to checkpoint") _
                  write_checkpoint-Returns)
                λ _. pure-Triple (get_devices pds) (λ w h. refl)

      prepare_fresh-Returns :
          Returns Ready (prepare_fresh H s order claim c) (λ ds w. ds ≡ get_devices pds)
      unfolding prepare_fresh
      prepare_fresh-Returns =
          bind-Triple {Q = λ x w. Ready w × (x ≡ pds)} _ _
            (on_error-Triple (describe "prepare failed") _ prepare_devices-Returns)
            λ x. given-Triple (finish x) λ e.
              subst (λ y. Returns Ready (finish y) (λ ds w. ds ≡ get_devices pds)) (sym e)
                finish-Returns

returned :
    {W A : Type 0} (a : A) (r : Outcome A × W)
    → Post (λ x w. x ≡ a) (λ w. ⊥) r
    → (w : W) × (r ≡ (ok a, w))
returned a (ok x, w) h = (w, rw h refl)
returned a (err e, w) h = absurd h
returned a (panicked, w) h = absurd h

-- `Prepare` returns the devices that the configs give for a claim that is not in the checkpoint, if
-- the claim is allocated and its devices can be computed, no system call fails, the checkpoint can be
-- decoded, the profile publishes no status, the names of the claim and of the requests of this driver
-- are single parts of paths, no file is where a directory of the claim is wanted and no directory
-- where its metadata file is, the CDI library finds a version and writes the spec, and the new
-- checkpoint can be encoded.
pub prepare_returns :
    (H : Host) (s : DeviceState H.Payload H.Status) (order : MapOrder H.Payload)
    (claim : ResourceClaim) (w : World H) (c : Checkpoint) (a : Allocation)
    (pds : List PreparedDevice) (version : Text) (cache : H.Cache) (blob : H.Blob)
    → w.faults ≡ []
    → stored H w.checkpoint_file ≡ ok c
    → has_claim claim.uid c ≡ false
    → claim.allocation ≡ some a
    → compute H s order claim ≡ ok pds
    → s.status_builder ≡ none
    → IsPlain claim.name
    → All (λ r. IsPlain r.request) (own_results s.driver_name a.results)
    → Clear H (directory_of claim) w
    → H.minimum_required_version (claim_spec H s.cdi claim.uid pds) ≡ ok version
    → H.write_spec
        (record (claim_spec H s.cdi claim.uid pds) { version = version })
        (spec_name H s.cdi claim.uid)
        w.cache
      ≡ ok cache
    → H.encode_checkpoint (to_v1 (add_claim_to_checkpoint claim c)) ≡ ok blob
    → (w' : World H) × (prepare H s order claim w ≡ (ok (get_devices pds), w'))
unfolding prepare
prepare_returns H s order claim w c a pds version cache blob calm at new allocated computed silent
      plain named clear versioned written encoded =
    rw (read_checkpoint_calm H w calm, at, new)
      (returned (get_devices pds) (prepare_fresh H s order claim c w) (
        (prepare_fresh-Returns H s claim plain w.cache order a pds allocated computed silent named c
            version cache blob versioned written encoded).run
          w (calm, refl, clear, tt)))
