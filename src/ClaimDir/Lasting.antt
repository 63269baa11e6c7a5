-- ===== src/ClaimDir/Lasting.antt =====
-- A directory that is ready for qemu stays so while the directories of other requests are made.
use dra_example_driver.Common.{
  ◌≡◌, refl, sym, ◌∙◌, ap, ◌≢◌, inl, inr, Bool-cases, Option, none, some, List, [], ◌∷◌, ◌++◌, Text,
  codes, ℕ, ◌==◌, nat_eq, list_eq,
}
use dra_example_driver.Common.Dict.{lookup, lookup-insert}
use dra_example_driver.Failure.{not_exist, wrap, ok}
use dra_example_driver.Failure.Action.{gets, modify, on_error}
use dra_example_driver.Failure.Triples.{
  Triple, pure-Triple, raise-Triple, gets-Triple, modify-Triple, bind-Triple, bind-lift-Triple,
  on_error-Triple, weaken-Triple,
}
use dra_example_driver.Checkpoint.Claims.{==-eq}
use dra_example_driver.Paths.{FilePath, parent, join_path}
use dra_example_driver.World.{Host, World, Node, directory, file, Attributes, attempt}
use dra_example_driver.World.Files.{
  set_node, attributes, with_attributes, change_node, change_attributes, opened, owned_by_root,
  make_one, make_dirs, mkdir_all, chown, chmod, write_file,
}
use dra_example_driver.World.Keeps.{IgnoresFaults, Keeps, attempt-Keeps}
use dra_example_driver.ClaimDir.{claim_root, claim_dir, set_owner, create_claim_directory}
use dra_example_driver.ClaimDir.Metadata.{metadata_json}
use dra_example_driver.ClaimDir.Created.{Qemu, Ready, lookup-insert_self}

-- An owner and a mode that qemu can work with.
abbrev Suits : Attributes → Type 0
Suits a = Qemu a × (a.mode ≡ 0o775)

-- A file that is opened for writing was no directory.
opened-free :
    (mode : ℕ) (above found : Option Node) {a : Attributes}
    → opened mode above found ≡ ok a
    → (b : Attributes) → found ≢ some (directory b)
opened-free mode (some (directory c)) none e b q = cc
opened-free mode (some (directory c)) (some (file a content)) e b q = cc
opened-free mode (some (directory c)) (some (directory a)) e b q = cc
opened-free mode (some (file c content)) found e b q = cc
opened-free mode none found e b q = cc

module _ {H : Host} (dir : FilePath) where
  -- Putting a node elsewhere, or in the place of nothing or of a file.
  Ready-set_node :
      (p : FilePath) (n : Node) (w : World H)
      → ((a : Attributes) → lookup p w.tree ≢ some (directory a))
      → Ready dir w
      → Ready dir (set_node p n w)
  Ready-set_node p n w free (a, at, q, m) = elim (Bool-cases (dir == p)) [
    | inl same ↦ absurd (free a (ap (λ x. lookup x w.tree) (sym (==-eq dir p same)) ∙ at))
    | inr other ↦ (a, lookup-insert dir p n w.tree ∙ rw other at, q, m)
  ]

  Ready-change :
      (f : Attributes → Attributes)
      → ((a : Attributes) → Suits a → Suits (f a))
      → (p : FilePath) (n : Node) (w : World H) → lookup p w.tree ≡ some n
      → Ready dir w
      → Ready dir (set_node p (with_attributes (f (attributes n)) n) w)
  Ready-change f suits p n w found (a, at, q, m) = elim (Bool-cases (dir == p)) [
    | inr other ↦
        (a, lookup-insert dir p (with_attributes (f (attributes n)) n) w.tree ∙ rw other at, q, m)
    | inl same ↦
        let here = ==-eq dir p same in
        let is_directory : n ≡ directory a =
          cc (sym found ∙ ap (λ x. lookup x w.tree) (sym here) ∙ at) in
        let (q', m') = suits a (q, m) in
        (
          f a,
          ap (λ x. lookup x (set_node p (with_attributes (f (attributes n)) n) w).tree) here
              ∙ lookup-insert_self p (with_attributes (f (attributes n)) n) w.tree
              ∙ ap (λ x. some (with_attributes (f (attributes x)) x)) is_directory,
          q',
          m',
        )
  ]

  Ready-faults : IgnoresFaults (Ready {H = H} dir)
  Ready-faults = record { faults = λ w fs h. h }

  change-Ready :
      (f : Attributes → Attributes)
      → ((a : Attributes) → Suits a → Suits (f a))
      → (p : FilePath) → Keeps (Ready dir) (change_attributes {H = H} f p)
  change-Ready f suits p = bind-Triple attempt _ (attempt-Keeps Ready-faults) λ _.
      bind-Triple {Q = λ found w. Ready dir w × (lookup p w.tree ≡ found)}
        (gets (λ w. lookup p w.tree)) _ (gets-Triple _ (λ w h. (h, refl))) λ found. changed found
    where
      changed :
          (found : Option Node)
          → Triple
              (λ w. Ready dir w × (lookup p w.tree ≡ found))
              (change_node {H = H} f p found)
              (λ a. Ready dir)
              (Ready dir)
      changed none = raise-Triple not_exist (λ w h. h.0)
      changed (some n) = modify-Triple _ (λ w h. Ready-change f suits p n w h.1 h.0)

  set_owner-Ready : (p : FilePath) → Keeps (Ready dir) (set_owner H p)
  unfolding chown chmod
  set_owner-Ready p =
      bind-Triple _ _
        (on_error-Triple _ _
          (change-Ready (λ a. record a { uid = 107; gid = 107 }) (λ a h. ((refl, refl), h.1)) p))
        λ _.
          bind-Triple _ _
            (on_error-Triple _ _
              (change-Ready (λ a. record a { mode = 0o775 }) (λ a h. (h.0, refl)) p))
            λ _. record { run = λ w h. h }

  chown-Ready : (p : FilePath) → Keeps (Ready dir) (chown {H = H} p 107 107)
  unfolding chown
  chown-Ready p =
      change-Ready (λ a. record a { uid = 107; gid = 107 }) (λ a h. ((refl, refl), h.1)) p

  make_dirs-Ready :
      (mode : ℕ) (above : FilePath) (cs : List Text)
      → Keeps (Ready dir) (make_dirs {H = H} mode above cs)
  unfolding make_dirs
  make_dirs-Ready mode above [] = pure-Triple tt (λ w h. h)
  make_dirs-Ready mode above (c ∷ cs) =
      bind-Triple {Q = λ found w. Ready dir w × (lookup (above ++ c ∷ []) w.tree ≡ found)}
        (gets (λ w. lookup (above ++ c ∷ []) w.tree)) _ (gets-Triple _ (λ w h. (h, refl)))
        λ found. made found (make_dirs-Ready mode (above ++ c ∷ []) cs)
    where
      made :
          (found : Option Node)
          → Keeps (Ready dir) (make_dirs {H = H} mode (above ++ c ∷ []) cs)
          → Triple
              (λ w. Ready dir w × (lookup (above ++ c ∷ []) w.tree ≡ found))
              (make_one mode (above ++ c ∷ []) found (make_dirs {H = H} mode (above ++ c ∷ []) cs))
              (λ a. Ready dir)
              (Ready dir)
      made none h =
          bind-Triple {Q = λ a w. Ready dir w × (lookup (above ++ c ∷ []) w.tree ≡ none)} attempt _
            (weaken-Triple attempt (λ w h. h) (λ a w h. h) (λ w h. h.0)
              (attempt-Keeps (record { faults = λ w fs h. h })))
            λ _.
              bind-Triple {Q = λ a. Ready dir}
                (modify (set_node (above ++ c ∷ []) (directory (owned_by_root mode)))) _
                (modify-Triple _
                  (λ w h. Ready-set_node (above ++ c ∷ []) _ w (λ a e. cc (sym h.1 ∙ e)) h.0))
                (λ _. h)
      made (some (directory a)) h = record { run = λ w g. h.run w g.0 }
      made (some (file a content)) h = raise-Triple _ (λ w g. g.0)

  pub mkdir_all-Ready : (p : FilePath) (mode : ℕ) → Keeps (Ready dir) (mkdir_all {H = H} p mode)
  unfolding mkdir_all
  mkdir_all-Ready p mode = make_dirs-Ready mode [] p

  -- A write that is under way: the file is there.
  abbrev Opened : FilePath → Attributes → World H → Type 0
  Opened p a w = Ready dir w × (lookup p w.tree ≡ some (file a []))

  write_file-Ready :
      (p : FilePath) (content : Text) (mode : ℕ)
      → Keeps (Ready dir) (write_file {H = H} p content mode)
  unfolding write_file
  write_file-Ready p content mode = bind-Triple attempt _ (attempt-Keeps Ready-faults) λ _.
      bind-Triple (gets (λ w. lookup (parent p) w.tree)) _ (gets-Triple _ (λ w h. h)) λ above.
        bind-Triple {Q = λ found w. Ready dir w × (lookup p w.tree ≡ found)}
          (gets (λ w. lookup p w.tree)) _ (gets-Triple _ (λ w h. (h, refl)))
          λ found.
            bind-lift-Triple (opened mode above found) _
              (λ a e.
                bind-Triple {Q = λ u. Opened p a} (modify (set_node p (file a []))) _
                  (modify-Triple (set_node p (file a [])) (λ w h. (
                    Ready-set_node p (file a []) w
                        (λ b q. opened-free mode above found e b (sym h.1 ∙ q)) h.0,
                    lookup-insert_self p (file a []) w.tree,
                  )))
                  λ _.
                    bind-Triple {Q = λ u. Opened p a} attempt _
                      (weaken-Triple attempt (λ w h. h) (λ u w h. h) (λ w h. h.0)
                        (attempt-Keeps (record { faults = λ w fs h. h })))
                      λ _.
                        modify-Triple (set_node p (file a content)) (λ w h.
                          Ready-set_node p (file a content) w (λ b q. cc (sym h.1 ∙ q)) h.0))
              (λ w h. h.0)

  pub create_claim_directory-Ready :
      (claim_name request device : Text)
      → Keeps (Ready dir) (create_claim_directory H claim_name request device)
  unfolding create_claim_directory
  create_claim_directory-Ready claim_name request device =
      let made = claim_dir claim_name request in
      let metadata = join_path made (codes "device.json" ∷ []) in
      let content = metadata_json device in
      bind-Triple (mkdir_all made 0o755) _ (mkdir_all-Ready made 0o755) λ _.
        bind-Triple (set_owner H (claim_root claim_name)) _
          (set_owner-Ready (claim_root claim_name))
          λ _. bind-Triple (set_owner H made) _ (set_owner-Ready made) λ _.
            bind-Triple
              (on_error (wrap "failed to write device metadata")
                (write_file metadata content 0o644))
              _ (on_error-Triple _ _ (write_file-Ready metadata content 0o644))
              λ _.
                bind-Triple
                  (on_error (wrap "failed to chown metadata file") (chown metadata 107 107)) _
                  (on_error-Triple _ _ (chown-Ready metadata)) λ _. record { run = λ w h. h }
