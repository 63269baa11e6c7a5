-- ===== src/ClaimDir/Smooth.antt =====
-- Worlds in which no system call fails and nothing is in the way of the directories of claims, and the
-- system calls that keep them such.
use dra_example_driver.Common.{
  ℕ, ◌≡◌, refl, sym, ◌∙◌, Option, none, some, List, [], ◌∷◌, ◌++◌, append_assoc, Text, nat_eq,
  list_eq, All, All-weaken,
}
use dra_example_driver.Common.Dict.{lookup}
use dra_example_driver.Failure.Action.{Action, gets, modify}
use dra_example_driver.Failure.Triples.{Triple, gets-Triple, modify-Triple, bind-Triple}
use dra_example_driver.Paths.{FilePath}
use dra_example_driver.World.{Host, World, Node, directory, file, Attributes, attempt}
use dra_example_driver.World.Files.{
  set_node, attributes, with_attributes, change_attributes, owned_by_root, make_one, make_dirs,
}
use dra_example_driver.World.Keeps.{attempt_calm}
use dra_example_driver.ClaimDir.Created.{lookup-insert_self}
use dra_example_driver.ClaimDir.Way.{
  OnWay, Clear, IsDirectory, Clear-directory, directory-set_node, Clear-change, directory-change,
}

-- A call that returns, whatever the world that `P` holds of.
abbrev pub Returns : {W A : Type 0} → (W → Type 0) → Action W A → (A → W → Type 0) → Type 0
Returns P m Q = Triple P m Q (λ w. ⊥)

module _ (H : Host) (root : FilePath) (k : H.Cache) where
  -- No system call fails, nothing is in the way, and these directories are there.
  abbrev pub Smooth : List FilePath → World H → Type 0
  Smooth done w = (w.faults ≡ []) × (w.cache ≡ k) × Clear H root w × All (IsDirectory H root w) done

  Smooth-directory :
      (done : List FilePath) (p : FilePath) (mode : ℕ) (w : World H)
      → OnWay H root p
      → Smooth done w
      → lookup p w.tree ≡ none
      → Smooth (p ∷ done) (set_node p (directory (owned_by_root mode)) w)
  Smooth-directory done p mode w way (calm, same, clear, dirs) missing = (
    calm,
    same,
    Clear-directory H root p (owned_by_root mode) w way clear,
    (
      (owned_by_root mode, lookup-insert_self p (directory (owned_by_root mode)) w.tree),
      All-weaken
          (λ q h.
            directory-set_node H root p q (directory (owned_by_root mode)) w
              (λ a e. cc (sym missing ∙ e)) h)
          done dirs,
    ),
  )

  -- The directories that are there once a path is made, the last first.
  abbrev pub made_dirs : FilePath → List Text → List FilePath → List FilePath
  made_dirs above [] done = done
  made_dirs above (c ∷ cs) done = made_dirs (above ++ c ∷ []) cs ((above ++ c ∷ []) ∷ done)

  pub make_dirs-Returns :
      (mode : ℕ) (above : FilePath) (cs : List Text) (done : List FilePath) (r : Text)
      → above ++ cs ≡ root ++ r ∷ []
      → Returns (Smooth done) (make_dirs mode above cs) (λ u. Smooth (made_dirs above cs done))
  unfolding make_dirs
  make_dirs-Returns mode above [] done r e = record { run = λ w h. h }
  make_dirs-Returns mode above (c ∷ cs) done r e =
      let p = above ++ c ∷ [] in
      let e' : p ++ cs ≡ root ++ r ∷ [] = append_assoc above (c ∷ []) cs ∙ e in
      bind-Triple {Q = λ found w. Smooth done w × (lookup p w.tree ≡ found)}
        (gets (λ w. lookup p w.tree)) _ (gets-Triple _ (λ w h. (h, refl)))
        λ found. made (r, cs, e') found (make_dirs-Returns mode p cs (p ∷ done) r e')
    where
      made :
          OnWay H root (above ++ c ∷ [])
          → (found : Option Node)
          → Returns
              (Smooth ((above ++ c ∷ []) ∷ done))
              (make_dirs mode (above ++ c ∷ []) cs)
              (λ u. Smooth (made_dirs above (c ∷ cs) done))
          → Returns
              (λ w. Smooth done w × (lookup (above ++ c ∷ []) w.tree ≡ found))
              (make_one mode (above ++ c ∷ []) found (make_dirs mode (above ++ c ∷ []) cs))
              (λ u. Smooth (made_dirs above (c ∷ cs) done))
      made way none rest =
          bind-Triple {Q = λ u w. Smooth done w × (lookup (above ++ c ∷ []) w.tree ≡ none)} attempt
            _ (record { run = λ w h. rw (attempt_calm w h.0.0) h })
            λ _.
              bind-Triple {Q = λ u. Smooth ((above ++ c ∷ []) ∷ done)}
                (modify (set_node (above ++ c ∷ []) (directory (owned_by_root mode)))) _
                (modify-Triple _
                  (λ w h. Smooth-directory done (above ++ c ∷ []) mode w way h.0 h.1))
                (λ _. rest)
      made way (some (directory a)) rest = record {
        run = λ w h. rest.run w (h.0.0, h.0.1, h.0.2, ((a, h.1), h.0.3));
      }
      made way (some (file a content)) rest = record {
        run = λ w h. h.0.2.ways (above ++ c ∷ []) way a content h.1;
      }

  -- The owner and the mode of what is there can be changed.
  pub change-Returns :
      (done : List FilePath) (f : Attributes → Attributes) (p : FilePath) (P : World H → Type 0)
      → ((w : World H)
          → Smooth done w
          → P w
          → (n : Node) × (lookup p w.tree ≡ some n)
            × P (set_node p (with_attributes (f (attributes n)) n) w))
      → Returns (λ w. Smooth done w × P w) (change_attributes f p) (λ u w. Smooth done w × P w)
  change-Returns done f p P present = record {
    run = λ w (h, g).
        let (n, at, after) = present w h g in
        rw (attempt_calm w h.0, at)
          (
            (
              h.0,
              h.1,
              Clear-change H root p (f (attributes n)) n w at h.2,
              All-weaken (λ q. directory-change H root p q (f (attributes n)) n w at) done h.3,
            ),
            after,
          );
  }
