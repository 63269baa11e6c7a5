-- ===== src/CheckpointFile/Atomic.antt =====
-- Writing the checkpoint is atomic: the file holds the old checkpoint or the new one, never a part.
use mathlib.Core.Path.{subst, sym}
use dra_example_driver.Common.{◌≡◌, refl, ap, ◌⊎◌, inl, inr, String, Option, none, some, List, ◌∷◌}
use dra_example_driver.Failure.{Outcome, ok, err, panicked, wrap, map_error, map_error-eq-ok}
use dra_example_driver.Failure.Action.{Action, modify, on_error}
use dra_example_driver.Failure.Triples.{
  Triple, Post, bind-lift-Triple, modify-Triple, bind-Triple, on_error-Triple, weaken-Triple,
}
use dra_example_driver.Checkpoint.{Checkpoint}
use dra_example_driver.Checkpoint.V1.{to_v1}
use dra_example_driver.World.{Host, World, attempt}
use dra_example_driver.World.Keeps.{IgnoresFaults, attempt-Keeps}
use dra_example_driver.CheckpointFile.{
  push_temp, fill_temp, filled, renamed, rename_temp, write_temp, closed, then_close,
  write_checkpoint,
}

module _ (H : Host) where
  -- The file holds the checkpoint, encoded.
  abbrev pub Written : Checkpoint → Option H.Blob → Type 0
  Written c f = (b : H.Blob) × (H.encode_checkpoint (to_v1 c) ≡ ok b) × (f ≡ some b)

  -- `R` speaks neither of the driver's own files nor of the faults.
  pub record IgnoresFiles (R : World H → Type 0) : Type 0 where
    pub files :
        (w : World H) (f : Option H.Blob) (ts : List (Option H.Blob)) (fs : List (Option String))
        → R w
        → R (record w { checkpoint_file = f; temp_files = ts; faults = fs })

module _ (H : Host) (c : Checkpoint) (o : Option H.Blob) (ts : List (Option H.Blob))
    {R : World H → Type 0} (i : IgnoresFiles H R) where
  -- The file is the old one, and the temporary files are these.
  abbrev Before : List (Option H.Blob) → World H → Type 0
  Before temps w = R w × (w.checkpoint_file ≡ o) × (w.temp_files ≡ temps)

  abbrev Old : World H → Type 0
  Old w = R w × (w.checkpoint_file ≡ o)

  abbrev New : World H → Type 0
  New w = R w × Written H c w.checkpoint_file × (w.temp_files ≡ ts)

  Before-Ignores : (temps : List (Option H.Blob)) → IgnoresFaults (Before temps)
  Before-Ignores temps = record {
    faults = λ w fs h. (i.files w w.checkpoint_file w.temp_files fs h.0, h.1, h.2);
  }

  Old-Ignores : IgnoresFaults Old
  Old-Ignores = record { faults = λ w fs h. (i.files w w.checkpoint_file w.temp_files fs h.0, h.1) }

  New-Ignores : IgnoresFaults New
  New-Ignores = record {
    faults = λ w fs h. (i.files w w.checkpoint_file w.temp_files fs h.0, h.1, h.2);
  }

  call :
      (temps : List (Option H.Blob)) (message : String)
      → Triple (Before temps) (on_error (wrap message) (attempt {H = H})) (λ a. Before temps) Old
  call temps message = on_error-Triple (wrap message) attempt (
      weaken-Triple attempt (λ w h. h) (λ a w h. h) (λ w h. (h.0, h.1))
        (attempt-Keeps (Before-Ignores temps)))

  rename_lem :
      (b : H.Blob) (w : World H)
      → H.encode_checkpoint (to_v1 c) ≡ ok b
      → Before (some b ∷ ts) w
      → New (rename_temp H w)
  rename_lem b w e (r, old, temps) =
      subst (λ t. New (renamed H t w)) (sym temps)
        (i.files w (some b) ts w.faults r, (b, e, refl), refl)

  fill_lem :
      (b : H.Blob) (w : World H) → Before (none ∷ ts) w → Before (some b ∷ ts) (fill_temp H b w)
  fill_lem b w (r, old, temps) =
      (i.files w w.checkpoint_file (filled H b w.temp_files) w.faults r, old, ap (filled H b) temps)

  write_temp-Triple : Triple (Before (none ∷ ts)) (write_temp H c) (λ a. New) Old
  write_temp-Triple =
      bind-lift-Triple (map_error (wrap "encode to temp file") (H.encode_checkpoint (to_v1 c))) _
        (λ b e.
          let value =
            map_error-eq-ok (wrap "encode to temp file") (H.encode_checkpoint (to_v1 c)) e in
          bind-Triple (on_error (wrap "encode to temp file") attempt) _
            (call (none ∷ ts) "encode to temp file")
            λ _.
              bind-Triple (modify (fill_temp H b)) _
                (modify-Triple {Q = λ a. Before (some b ∷ ts)} (fill_temp H b) (fill_lem b))
                λ _.
                  bind-Triple (on_error (wrap "sync temp file") attempt) _
                    (call (some b ∷ ts) "sync temp file")
                    λ _.
                      bind-Triple (on_error (wrap "rename") attempt) _ (call (some b ∷ ts) "rename")
                        λ _. modify-Triple (rename_temp H) (λ w h. rename_lem b w value h))
        (λ w h. (h.0, h.1))

  -- Either all that the call promises, or the file is as it was or as it was to be.
  abbrev Torn : World H → Type 0
  Torn w = R w × ((w.checkpoint_file ≡ o) ⊎ Written H c w.checkpoint_file)

  then_close-Triple :
      (m : Action (World H) (Unit {0}))
      → Triple (Before (none ∷ ts)) m (λ a. New) Old
      → Triple (Before (none ∷ ts)) (then_close H m) (λ a. New) Torn
  then_close-Triple m t = record { run = λ w h. go (m w).0 (m w).1 (t.run w h) }
    where
      finish :
          (r : Outcome (Unit {0})) (w : World H)
          → Post (λ a. New) New (r, w)
          → Post (λ a. New) Torn (closed H (ok tt) r, w)
      finish (ok a) w h = h
      finish (err e) w h = (h.0, inr h.1)
      finish panicked w h = (h.0, inr h.1)

      old : (r : Outcome (Unit {0})) (w : World H) → Post (λ a. Old) Old (r, w) → Old w
      old (ok a) w h = h
      old (err e) w h = h
      old panicked w h = h

      go :
          (r : Outcome (Unit {0})) (w : World H)
          → Post (λ a. New) Old (r, w)
          → Post (λ a. New) Torn (closed H r (attempt w).0, (attempt w).1)
      go (ok a) w h = finish (attempt w).0 (attempt w).1 ((attempt-Keeps New-Ignores).run w h)
      go (err e) w h =
          let k = old (attempt w).0 (attempt w).1 ((attempt-Keeps Old-Ignores).run w h) in
          (k.0, inl k.1)
      go panicked w h =
          let k = old (attempt w).0 (attempt w).1 ((attempt-Keeps Old-Ignores).run w h) in
          (k.0, inl k.1)

  push_lem : (w : World H) → Before ts w → Before (none ∷ ts) (push_temp H w)
  push_lem w (r, old, temps) =
      (i.files w w.checkpoint_file (none ∷ w.temp_files) w.faults r, old, ap (λ t. none ∷ t) temps)

  -- A call that returns has put the new checkpoint, encoded, in the place of the old one and left
  -- no temporary file behind. After one that fails the file is the old one, or, if only closing the
  -- temporary file failed, the new one. Nothing else in the world has changed.
  pub write_checkpoint-Triple : Triple (Before ts) (write_checkpoint H c) (λ a. New) Torn
  unfolding write_checkpoint
  write_checkpoint-Triple =
      bind-Triple (on_error (wrap "create temp file") attempt) _
        (weaken-Triple (on_error (wrap "create temp file") attempt) (λ w h. h) (λ a w h. h)
          (λ w h. (h.0, inl h.1)) (call ts "create temp file"))
        λ _.
          bind-Triple (modify (push_temp H)) _
            (modify-Triple {Q = λ a. Before (none ∷ ts)} (push_temp H) push_lem)
            λ _. then_close-Triple (write_temp H c) write_temp-Triple
