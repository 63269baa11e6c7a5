-- ===== src/State/Unprepare.antt =====
-- What `Unprepare` leaves in the checkpoint file and in the CDI cache.
use dra_example_driver.Common.{
  ◌≡◌, refl, ◌≢◌, ◌⊎◌, inl, inr, String, Option, none, some, List, Text,
}
use mathlib.Core.Path.{subst}
use dra_example_driver.Failure.{Error, Outcome, ok, err, panicked, failure, describe}
use dra_example_driver.Failure.Action.{Action, on_error, attempted, continue, ◌>>=◌, ◌>>◌}
use dra_example_driver.Failure.Triples.{
  Triple, Post, pure-Triple, bind-Triple, on_error-Triple, weaken-Triple,
}
use dra_example_driver.Cdi.Cached.{IgnoresCache, delete_claim_spec_file-Triple}
use dra_example_driver.Cdi.ClaimSpec.{spec_name, delete_claim_spec_file}
use dra_example_driver.Devices.{DeviceState}
use dra_example_driver.Checkpoint.{Checkpoint, new_checkpoint, remove_claim_from_checkpoint}
use dra_example_driver.CheckpointFile.{write_checkpoint}
use dra_example_driver.CheckpointFile.Atomic.{Written, IgnoresFiles, write_checkpoint-Triple}
use dra_example_driver.CheckpointFile.Read.{stored, read_checkpoint-cases}
use dra_example_driver.World.{Host, World}
use dra_example_driver.State.Defs.{unprepare_devices, checkpoint_or_nil, remove_from, unprepare}
use dra_example_driver.State.Steps.{IgnoresSurroundings, unprepare_devices-Keeps}

module _ (H : Host) (s : DeviceState H.Payload H.Status) (claim_uid : Text) where
  abbrev Removed : Checkpoint → World H → World H → Type 0
  Removed c w w' =
      Written H (remove_claim_from_checkpoint claim_uid c) w'.checkpoint_file
      × (H.remove_spec (spec_name H s.cdi claim_uid) w.cache ≡ ok w'.cache)
      × (w'.temp_files ≡ w.temp_files)

  -- The cache is what removing the spec of the claim made of it.
  abbrev pub Cut : World H → World H → Type 0
  Cut w w' = H.remove_spec (spec_name H s.cdi claim_uid) w.cache ≡ ok w'.cache

  abbrev pub CutOrOld : World H → World H → Type 0
  CutOrOld w w' = (w'.cache ≡ w.cache) ⊎ Cut w w'

  -- The rest of `Unprepare` once the checkpoint is read.
  abbrev rest : Option Checkpoint → Action (World H) (Unit {0})
  rest checkpoint =
      on_error (describe "unprepare failed") (unprepare_devices H s claim_uid checkpoint)
      >> (remove_from H s claim_uid checkpoint >>= λ left.
          on_error (describe "unable to delete CDI spec file for claim")
            (delete_claim_spec_file H s.cdi claim_uid)
          >> on_error (describe "unable to sync to checkpoint") (write_checkpoint H left))

  module _ (c : Checkpoint) (w₀ : World H) where
    abbrev KeptFiles : World H → Type 0
    KeptFiles w = (w.checkpoint_file ≡ w₀.checkpoint_file) × (w.temp_files ≡ w₀.temp_files)

    abbrev Kept : World H → Type 0
    Kept w = KeptFiles w × (w.cache ≡ w₀.cache)

    abbrev Failed : World H → Type 0
    Failed w =
        ((w.checkpoint_file ≡ w₀.checkpoint_file) × CutOrOld w₀ w)
        ⊎ (Written H (remove_claim_from_checkpoint claim_uid c) w.checkpoint_file × Cut w₀ w)

    rest-Triple : Triple Kept (rest (some c)) (λ a. Removed c w₀) Failed
    rest-Triple =
        bind-Triple _ _
          (on_error-Triple _ _ (
            weaken-Triple (unprepare_devices H s claim_uid (some c)) (λ w h. h) (λ a w h. h)
              (λ w h. inl (h.0.0, inl h.1))
              (unprepare_devices-Keeps kept-Ignores s claim_uid (some c))))
          λ _.
            bind-Triple _ _
              (on_error-Triple _ _ (
                weaken-Triple (delete_claim_spec_file H s.cdi claim_uid) (λ w h. h) (λ a w h. h)
                  (λ w h. inl (h.0.0, inl h.1))
                  (delete_claim_spec_file-Triple w₀.cache s.cdi claim_uid files-Ignores)))
              λ _. on_error-Triple _ _ (
                weaken-Triple (write_checkpoint H (remove_claim_from_checkpoint claim_uid c))
                  (λ w h. (h.1, h.0.0, h.0.1)) (λ a w h. (h.1, h.0, h.2))
                  (λ w h. elim h.1 [ inl old ↦ inl (old, inr h.0) | inr new ↦ inr (new, h.0) ])
                  (write_checkpoint-Triple H (remove_claim_from_checkpoint claim_uid c)
                    w₀.checkpoint_file w₀.temp_files removed-Ignores))
      where
        kept-Ignores : IgnoresSurroundings Kept
        kept-Ignores = record { surroundings = λ w t k fs h. h }

        files-Ignores : IgnoresCache KeptFiles
        files-Ignores = record { cache = λ w k h. h }

        removed-Ignores :
            IgnoresFiles H (λ w. H.remove_spec (spec_name H s.cdi claim_uid) w₀.cache ≡ ok w.cache)
        removed-Ignores = record { files = λ w f ts fs h. h }

  abbrev pub Returned : World H → World H → Type 0
  Returned w w' = (c : Checkpoint) × (stored H w.checkpoint_file ≡ ok c) × Removed c w w'

  abbrev pub NotReturned : World H → World H → Type 0
  NotReturned w w' =
      ((w'.checkpoint_file ≡ w.checkpoint_file) × CutOrOld w w')
      ⊎ ((c : Checkpoint) × (stored H w.checkpoint_file ≡ ok c)
          × Written H (remove_claim_from_checkpoint claim_uid c) w'.checkpoint_file
          × Cut w w')
      ⊎ (Written H new_checkpoint w'.checkpoint_file × (w'.cache ≡ w.cache))

  abbrev Same : World H → World H → Type 0
  Same w v = (w.checkpoint_file ≡ v.checkpoint_file) × (w.temp_files ≡ v.temp_files)

  unread-Triple :
      (e : Error) (w : World H)
      → Triple
          (λ v.
            (v.cache ≡ w.cache)
            × (v.checkpoint_file ≡ w.checkpoint_file)
            × (v.temp_files ≡ w.temp_files))
          (checkpoint_or_nil H s (err e) >>= rest)
          (λ a. Returned w)
          (NotReturned w)
  unfolding unprepare_devices
  unread-Triple e w =
      bind-Triple
        {Q = λ c v. (c ≡ none) × Written H new_checkpoint v.checkpoint_file × (v.cache ≡ w.cache)} _
        _
        (bind-Triple _ _
          (on_error-Triple _ _ (
            weaken-Triple (write_checkpoint H new_checkpoint) (λ v h. h) (λ a v h. h)
              (λ v h. elim h.1 [ inl old ↦ inl (old, inl h.0) | inr new ↦ inr (inr (new, h.0)) ])
              (write_checkpoint-Triple H new_checkpoint w.checkpoint_file w.temp_files
                {R = λ v. v.cache ≡ w.cache} (record { files = λ v f ts fs h. h }))))
          (λ _. pure-Triple none (λ v h. (refl, h.1, h.0))))
        nil
    where
      nil :
          (c : Option Checkpoint)
          → Triple
              (λ v. (c ≡ none) × Written H new_checkpoint v.checkpoint_file × (v.cache ≡ w.cache))
              (rest c)
              (λ a. Returned w)
              (NotReturned w)
      nil none = record { run = λ v h. inr (inr (h.1, h.2)) }
      nil (some c) = record { run = λ v h. absurd cc }

  unprepare_lem : (w : World H) → Post (λ a. Returned w) (NotReturned w) (unprepare H s claim_uid w)
  unfolding unprepare
  unprepare_lem w =
      let (fs, cases) = read_checkpoint-cases H w in
      elim cases [
        | inl e ↦ rw e (read (stored H w.checkpoint_file) fs refl)
        | inr (message, e) ↦
            rw e (
              (unread-Triple (failure message) w).run (record w { faults = fs }) (refl, refl, refl))
      ]
    where
      read :
          (r : Outcome Checkpoint) (fs : List (Option String))
          → stored H w.checkpoint_file ≡ r
          → Post
              (λ a. Returned w)
              (NotReturned w)
              (continue
                (attempted r)
                (λ r'. checkpoint_or_nil H s r' >>= rest)
                (record w { faults = fs }))
      read (ok c) fs at =
          (weaken-Triple {E = NotReturned w} {Q = λ a. Returned w} (rest (some c)) (λ v h. h)
              (λ a v h. (c, at, h))
              (λ v h. elim h [ inl old ↦ inl old | inr (f, g) ↦ inr (inl (c, at, f, g)) ])
              (rest-Triple c w)).run
            (record w { faults = fs }) ((refl, refl), refl)
      read (err e) fs at = (unread-Triple e w).run (record w { faults = fs }) (refl, refl, refl)
      read panicked fs at = inl (refl, inl refl)

  -- If `Unprepare` returns no error, then the checkpoint could be read, the checkpoint file holds
  -- what it held before without the claim, the CDI cache is what removing the spec of the claim made
  -- of it, and no new temporary file is left behind.
  pub unprepare_sound :
      (w w' : World H)
      → unprepare H s claim_uid w ≡ (ok tt, w')
      → (c : Checkpoint) × (stored H w.checkpoint_file ≡ ok c)
        × (Written H (remove_claim_from_checkpoint claim_uid c) w'.checkpoint_file
            × (H.remove_spec (spec_name H s.cdi claim_uid) w.cache ≡ ok w'.cache)
            × (w'.temp_files ≡ w.temp_files))
  unprepare_sound w w' e = subst (Post (λ a. Returned w) (NotReturned w)) e (unprepare_lem w)

  -- If `Unprepare` returns an error or panics, then the checkpoint file is what it was, and the CDI
  -- cache is too, or the spec of the claim is removed from it; or the checkpoint file holds what it
  -- held without the claim, and the spec is removed; or the checkpoint file holds the empty checkpoint,
  -- and the CDI cache is what it was.
  pub unprepare_failed :
      (w w' : World H) (r : Outcome (Unit {0}))
      → unprepare H s claim_uid w ≡ (r, w')
      → r ≢ ok tt
      → ((w'.checkpoint_file ≡ w.checkpoint_file) × CutOrOld w w')
        ⊎ ((c : Checkpoint) × (stored H w.checkpoint_file ≡ ok c)
            × Written H (remove_claim_from_checkpoint claim_uid c) w'.checkpoint_file
            × Cut w w')
        ⊎ (Written H new_checkpoint w'.checkpoint_file × (w'.cache ≡ w.cache))
  unprepare_failed w w' (ok tt) e failed = absurd (failed refl)
  unprepare_failed w w' (err x) e failed =
      subst (Post (λ a. Returned w) (NotReturned w)) e (unprepare_lem w)
  unprepare_failed w w' panicked e failed =
      subst (Post (λ a. Returned w) (NotReturned w)) e (unprepare_lem w)
