-- ===== src/CheckpointFile/RoundTrip.antt =====
-- What is written to the checkpoint file is read back from it.
use dra_example_driver.Common.{◌≡◌, refl, ◌∙◌, ap, ◌⊎◌, inl, inr, String, Option, some, []}
use dra_example_driver.Failure.{Outcome, ok, err, panicked, failure}
use dra_example_driver.Failure.Triples.{Post}
use dra_example_driver.Checkpoint.{Checkpoint}
use dra_example_driver.Checkpoint.V1
use dra_example_driver.Checkpoint.V1.{to_v1, from_v1, from_v1-to_v1}
use mathlib.Core.Path.{subst}
use dra_example_driver.World.{Host, World}
use dra_example_driver.World.Keeps.{attempt_calm}
use dra_example_driver.CheckpointFile.{
  push_temp, fill_temp, rename_temp, read_checkpoint, write_checkpoint,
}
use dra_example_driver.CheckpointFile.Atomic.{Written, IgnoresFiles, write_checkpoint-Triple}
use dra_example_driver.CheckpointFile.Read.{stored, read_checkpoint-cases}

-- The serializer decodes what it has encoded.
abbrev pub IsCodec : Host → Type 0
IsCodec H =
    (v : V1.Checkpoint) (b : H.Blob) → H.encode_checkpoint v ≡ ok b → H.decode_checkpoint b ≡ ok v

module _ (H : Host) where
  pub stored-Written :
      IsCodec H → (c : Checkpoint) (f : Option H.Blob) → Written H c f → stored H f ≡ ok c
  stored-Written codec c f (b, e, at) = ap (stored H) at ∙ rw (codec (to_v1 c) b e, from_v1-to_v1 c)

  -- The parts of the world that writing a checkpoint leaves alone.
  abbrev pub SameBesides : World H → World H → Type 0
  SameBesides w w' = (w'.tree ≡ w.tree) × (w'.cache ≡ w.cache) × (w'.cluster ≡ w.cluster)

  same-IgnoresFiles : (w : World H) → IgnoresFiles H (SameBesides w)
  same-IgnoresFiles w = record { files = λ w' f ts fs h. h }

  abbrev WrittenOrOld : (c : Checkpoint) (w : World H) → Outcome (Unit {0}) × World H → Type 0
  WrittenOrOld c w (r, w') =
      SameBesides w w'
      × ((w'.checkpoint_file ≡ w.checkpoint_file) ⊎ Written H c w'.checkpoint_file)
      × (r ≡ ok tt → Written H c w'.checkpoint_file × (w'.temp_files ≡ w.temp_files))

  write_checkpoint_lem : (c : Checkpoint) (w : World H) → WrittenOrOld c w (write_checkpoint H c w)
  write_checkpoint_lem c w = settle (write_checkpoint H c w).0 (write_checkpoint H c w).1 (
      (write_checkpoint-Triple H c w.checkpoint_file w.temp_files (same-IgnoresFiles w)).run w
        ((refl, refl, refl), refl, refl))
    where
      settle :
          (r : Outcome (Unit {0})) (w' : World H)
          → Post
              (λ a v.
                SameBesides w v × Written H c v.checkpoint_file × (v.temp_files ≡ w.temp_files))
              (λ v.
                SameBesides w v
                × ((v.checkpoint_file ≡ w.checkpoint_file) ⊎ Written H c v.checkpoint_file))
              (r, w')
          → WrittenOrOld c w (r, w')
      settle (ok a) w' h = (h.0, inr h.1, λ _. (h.1, h.2))
      settle (err e) w' h = (h.0, h.1, λ q. cc)
      settle panicked w' h = (h.0, h.1, λ q. cc)

  -- Whatever fails in `writeCheckpoint`, the checkpoint file holds the old content or the whole new one, and
  -- nothing but the driver's files has changed.
  pub write_checkpoint_atomic :
      (c : Checkpoint) (w w' : World H) (r : Outcome (Unit {0}))
      → write_checkpoint H c w ≡ (r, w')
      → SameBesides w w'
        × ((w'.checkpoint_file ≡ w.checkpoint_file) ⊎ Written H c w'.checkpoint_file)
  write_checkpoint_atomic c w w' r e =
      let (same, file, _) = subst (WrittenOrOld c w) e (write_checkpoint_lem c w) in (same, file)

  -- If `writeCheckpoint` returns no error, then the checkpoint file holds the new checkpoint, encoded,
  -- and no new temporary file is left behind.
  pub write_checkpoint_sound :
      (c : Checkpoint) (w w' : World H)
      → write_checkpoint H c w ≡ (ok tt, w')
      → Written H c w'.checkpoint_file × (w'.temp_files ≡ w.temp_files)
  write_checkpoint_sound c w w' e =
      let (_, _, done) = subst (WrittenOrOld c w) e (write_checkpoint_lem c w) in done refl

  -- If no system call fails and the checkpoint can be encoded, then `writeCheckpoint` returns, and the
  -- encoded checkpoint is in the checkpoint file and nothing else has changed.
  pub write_checkpoint_calm :
      (c : Checkpoint) (w : World H) (b : H.Blob)
      → w.faults ≡ []
      → H.encode_checkpoint (to_v1 c) ≡ ok b
      → write_checkpoint H c w ≡ (ok tt, record w { checkpoint_file = some b })
  unfolding write_checkpoint
  write_checkpoint_calm c w b calm e =
      let w₁ = push_temp H w in
      let w₂ = fill_temp H b w₁ in
      rw (
        attempt_calm w calm,
        e,
        attempt_calm w₁ calm,
        attempt_calm w₂ calm,
        attempt_calm w₂ calm,
        attempt_calm (rename_temp H w₂) calm,
      )

  -- If the serializer decodes what it encoded, then a checkpoint that has been written is read back,
  -- unless the system call that reads it fails.
  pub read-write :
      IsCodec H
      → (c : Checkpoint) (w w' : World H) → write_checkpoint H c w ≡ (ok tt, w')
      → ((read_checkpoint H w').0 ≡ ok c)
        ⊎ ((message : String) × ((read_checkpoint H w').0 ≡ err (failure message)))
  read-write codec c w w' e =
      let file = (write_checkpoint_sound c w w' e).0 in
      let (fs, cases) = read_checkpoint-cases H w' in
      elim cases [
        | inl q ↦ inl (rw q (stored-Written codec c w'.checkpoint_file file))
        | inr (message, q) ↦ inr (message, rw q refl)
      ]
