-- ===== src/CheckpointFile/Read.antt =====
-- What reading the checkpoint returns.
use dra_example_driver.Common.{
  String, ◌≡◌, refl, sym, ap, ◌⊎◌, inl, inr, Option, none, some, List, [], ◌∷◌,
}
use dra_example_driver.Failure.{failure, Outcome, ok, err, panicked}
use dra_example_driver.Failure.Action.{continue, attempted}
use dra_example_driver.Failure.Triples.{Triple, Post}
use dra_example_driver.Checkpoint.{Checkpoint, new_checkpoint}
use dra_example_driver.World.{Host, World}
use dra_example_driver.World.Keeps.{IgnoresFaults, attempt-cases, attempt_calm, attempt_granted}
use dra_example_driver.CheckpointFile.{decoded, content, decode_read, read_checkpoint}

module _ (H : Host) where
  -- The checkpoint that a file stands for: an empty one if there is no file.
  abbrev pub stored : Option H.Blob → Outcome Checkpoint
  stored none = ok new_checkpoint
  stored (some b) = decoded H b

  read_found :
      (o : Option H.Blob) (w : World H)
      → continue (attempted (content H o w).0) (decode_read H) (content H o w).1 ≡ (stored o, w)
  read_found none w = refl
  read_found (some b) w = refl

  -- Reading returns what the file stands for, or fails with a message of the operating system; it
  -- changes nothing but the list of faults.
  pub read_checkpoint-cases :
      (w : World H)
      → (fs : List (Option String)) × ((read_checkpoint H w
            ≡ (stored w.checkpoint_file, record w { faults = fs }))
          ⊎ ((message : String) × (read_checkpoint H w
                ≡ (err (failure message), record w { faults = fs }))))
  unfolding read_checkpoint
  read_checkpoint-cases w =
      let (fs, cases) = attempt-cases w in
      elim cases [
        | inl e ↦ (fs, inl (rw e (read_found w.checkpoint_file _)))
        | inr (message, e) ↦ (fs, inr (message, rw e refl))
      ]

  pub read_checkpoint_calm :
      (w : World H) → w.faults ≡ [] → read_checkpoint H w ≡ (stored w.checkpoint_file, w)
  unfolding read_checkpoint
  read_checkpoint_calm w calm = rw (attempt_calm w calm) (read_found w.checkpoint_file w)

  pub read_checkpoint_granted :
      (w : World H) (fs : List (Option String))
      → w.faults ≡ none ∷ fs
      → read_checkpoint H w ≡ (stored w.checkpoint_file, record w { faults = fs })
  unfolding read_checkpoint
  read_checkpoint_granted w fs granted =
      rw (attempt_granted w fs granted) (read_found w.checkpoint_file (record w { faults = fs }))

module _ (H : Host) (o : Option H.Blob) {P : World H → Type 0} (i : IgnoresFaults P) where
  abbrev With : World H → Type 0
  With w = P w × (w.checkpoint_file ≡ o)

  -- The same as a triple, for worlds in which the file is known.
  pub read_checkpoint-Triple :
      Triple With (read_checkpoint H) (λ c w. With w × (stored H o ≡ ok c)) With
  read_checkpoint-Triple = record {
    run = λ w h.
        let (fs, cases) = read_checkpoint-cases H w in
        let after : With (record w { faults = fs }) = (i.faults w fs h.0, h.1) in
        elim cases [
          | inl e ↦ rw e (
              settle (stored H w.checkpoint_file) (record w { faults = fs }) after
                (ap (stored H) h.1))
          | inr (message, e) ↦ rw e after
        ];
  }
    where
      settle :
          (r : Outcome Checkpoint) (w : World H)
          → With w
          → r ≡ stored H o
          → Post (λ c v. With v × (stored H o ≡ ok c)) With (r, w)
      settle (ok c) w h e = (h, sym e)
      settle (err e') w h e = h
      settle panicked w h e = h
