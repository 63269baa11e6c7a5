-- ===== src/ClaimDir/Created.antt =====
-- What the tree holds once the directory of a claim is made.
use dra_example_driver.Common.{
  ◌≡◌, refl, sym, ◌∙◌, ap, ◌≢◌, inl, inr, Bool-cases, Option, none, some, [], ◌∷◌, ◌++◌, Text, ℕ,
  ◌==◌, nat_eq, list_eq,
}
use mathlib.Core.Path.{subst}
use dra_example_driver.Common.Dict.{lookup, insert, lookup-insert}
use dra_example_driver.Failure.{ok, not_exist}
use dra_example_driver.Failure.Action.{gets, modify}
use dra_example_driver.Failure.Triples.{
  Triple, raise-Triple, gets-Triple, modify-Triple, bind-Triple, bind-lift-Triple, on_error-Triple,
  weaken-Triple,
}
use dra_example_driver.Checkpoint.Claims.{==-eq, ==-refl}
use dra_example_driver.Paths.{FilePath, parent, parent-concat}
use dra_example_driver.World.{Host, World, Tree, Node, directory, file, Attributes, attempt}
use dra_example_driver.World.Files.{
  set_node, attributes, with_attributes, change_node, change_attributes, opened, chown, chmod,
  write_file,
}
use dra_example_driver.World.Keeps.{IgnoresFaults, attempt-Keeps}
use dra_example_driver.ClaimDir.{set_owner}

pub lookup-insert_self : (p : FilePath) (n : Node) (t : Tree) → lookup p (insert p n t) ≡ some n
lookup-insert_self p n t = lookup-insert p p n t ∙ rw (==-refl p) refl

concat_ne : (p : FilePath) (c : Text) → p ≢ p ++ c ∷ []
concat_ne [] c e = cc
concat_ne (d ∷ p) c e = concat_ne p c (cc e)

lookup-insert_below :
    (p : FilePath) (c : Text) (n : Node) (t : Tree)
    → lookup p (insert (p ++ c ∷ []) n t) ≡ lookup p t
lookup-insert_below p c n t = elim (Bool-cases (p == (p ++ c ∷ []))) [
  | inl same ↦ absurd (concat_ne p c (==-eq p (p ++ c ∷ []) same))
  | inr other ↦ lookup-insert p (p ++ c ∷ []) n t ∙ rw other refl
]

attributes-with_attributes : (a : Attributes) (n : Node) → attributes (with_attributes a n) ≡ a
attributes-with_attributes a (directory b) = refl
attributes-with_attributes a (file b content) = refl

opened-directory :
    (mode : ℕ) (above found : Option Node) (a : Attributes)
    → opened mode above found ≡ ok a
    → (b : Attributes) × (above ≡ some (directory b))
opened-directory mode (some (directory b)) found a e = (b, refl)
opened-directory mode (some (file b content)) found a e = cc
opened-directory mode none found a e = cc

-- Owned by qemu.
abbrev pub Qemu : Attributes → Type 0
Qemu a = (a.uid ≡ 107) × (a.gid ≡ 107)

module _ {H : Host} where
  abbrev pub Anything : World H → Type 0
  Anything w = Unit {0}

  change-Triple :
      {P R : World H → Type 0} (i : IgnoresFaults P) (f : Attributes → Attributes) (p : FilePath)
      → ((w : World H) (n : Node)
          → P w
          → lookup p w.tree ≡ some n
          → R (set_node p (with_attributes (f (attributes n)) n) w))
      → Triple P (change_attributes {H = H} f p) (λ a. R) Anything
  change-Triple {P} {R} i f p changes =
      bind-Triple attempt _
        (weaken-Triple attempt (λ w h. h) (λ a w h. h) (λ w h. tt) (attempt-Keeps i))
        λ _.
          bind-Triple {Q = λ found w. P w × (lookup p w.tree ≡ found)} (gets (λ w. lookup p w.tree))
            _ (gets-Triple _ (λ w h. (h, refl))) λ found. changed found
    where
      changed :
          (found : Option Node)
          → Triple
              (λ w. P w × (lookup p w.tree ≡ found))
              (change_node {H = H} f p found)
              (λ a. R)
              Anything
      changed none = raise-Triple not_exist (λ w h. tt)
      changed (some n) = modify-Triple _ (λ w h. changes w n h.0 h.1)

  -- The node has the owner and the mode that the driver gives to directories.
  abbrev pub Owned : FilePath → World H → Type 0
  Owned p w =
      (n : Node) × (lookup p w.tree ≡ some n) × Qemu (attributes n) × ((attributes n).mode ≡ 0o775)

  pub set_owner-Triple : (p : FilePath) → Triple Anything (set_owner H p) (λ a. Owned p) Anything
  unfolding chown chmod
  set_owner-Triple p =
      bind-Triple {Q = λ a w. (n : Node) × (lookup p w.tree ≡ some n) × Qemu (attributes n)} _ _
        (on_error-Triple _ _ (
          change-Triple (record { faults = λ w fs h. tt }) (λ a. record a { uid = 107; gid = 107 })
            p
            (λ w n h e. (
              _,
              lookup-insert_self p _ w.tree,
              rw (attributes-with_attributes (record (attributes n) { uid = 107; gid = 107 }) n)
                  (refl, refl),
            ))))
        λ _.
          bind-Triple {Q = λ a. Owned p} _ _
            (on_error-Triple _ _ (
              change-Triple (record { faults = λ w fs h. h }) (λ a. record a { mode = 0o775 }) p
                (λ w n (m, at, q) e.
                  let same : m ≡ n = cc in
                  (
                    _,
                    lookup-insert_self p _ w.tree,
                    rw (attributes-with_attributes (record (attributes n) { mode = 0o775 }) n)
                        (subst (λ x. Qemu (attributes x)) same q),
                    ap (λ a. a.mode)
                        (attributes-with_attributes (record (attributes n) { mode = 0o775 }) n),
                  ))))
            λ _. record { run = λ w h. h }

  -- The directory is there for qemu to use.
  abbrev pub Ready : FilePath → World H → Type 0
  Ready p w = (a : Attributes) × (lookup p w.tree ≡ some (directory a)) × Qemu a × (a.mode ≡ 0o775)

  abbrev pub Holds : FilePath → Text → World H → Type 0
  Holds p content w = (a : Attributes) × (lookup p w.tree ≡ some (file a content))

  module _ (dir : FilePath) (name : Text) where
    Ready-below :
        (n : Node) (w : World H) → Ready dir w → Ready dir (set_node (dir ++ name ∷ []) n w)
    Ready-below n w (a, at, q, m) = (a, lookup-insert_below dir name n w.tree ∙ at, q, m)

    pub write_file-Triple :
        (content : Text) (mode : ℕ)
        → Triple
            (Owned dir)
            (write_file {H = H} (dir ++ name ∷ []) content mode)
            (λ a w. Ready dir w × Holds (dir ++ name ∷ []) content w)
            Anything
    unfolding write_file
    write_file-Triple content mode =
        bind-Triple attempt _
          (weaken-Triple attempt (λ w h. h) (λ a w h. h) (λ w h. tt)
            (attempt-Keeps (record { faults = λ w fs h. h })))
          λ _.
            bind-Triple {Q = λ above w. Owned dir w × (lookup dir w.tree ≡ above)}
              (gets (λ w. lookup (parent (dir ++ name ∷ [])) w.tree)) _
              (gets-Triple _ (λ w h. (h, ap (λ p. lookup p w.tree) (sym (parent-concat dir name)))))
              λ above.
                bind-Triple {Q = λ found w. Owned dir w × (lookup dir w.tree ≡ above)}
                  (gets (λ w. lookup (dir ++ name ∷ []) w.tree)) _ (gets-Triple _ (λ w h. h))
                  λ found.
                    bind-lift-Triple (opened mode above found) _
                      (λ a e.
                        let (b, is_directory) = opened-directory mode above found a e in
                        bind-Triple {Q = λ u w. Ready dir w}
                          (modify (set_node (dir ++ name ∷ []) (file a []))) _
                          (modify-Triple (set_node (dir ++ name ∷ []) (file a []))
                            (λ w h. Ready-below (file a []) w (ready w b h.0 (h.1 ∙ is_directory))))
                          λ _.
                            bind-Triple {Q = λ u w. Ready dir w} attempt _
                              (weaken-Triple attempt (λ w h. h) (λ u w h. h) (λ w h. tt)
                                (attempt-Keeps (record { faults = λ w fs h. h })))
                              λ _.
                                modify-Triple (set_node (dir ++ name ∷ []) (file a content)) (λ w h.
                                  (
                                    Ready-below (file a content) w h,
                                    (
                                      a,
                                      lookup-insert_self (dir ++ name ∷ []) (file a content) w.tree,
                                    ),
                                  )))
                      (λ w h. tt)
      where
        ready :
            (w : World H) (b : Attributes)
            → Owned dir w
            → lookup dir w.tree ≡ some (directory b)
            → Ready dir w
        ready w b (n, at, q, m) is_directory =
            let same : n ≡ directory b = cc in
            (
              b,
              is_directory,
              subst (λ x. Qemu (attributes x)) same q,
              subst (λ x. (attributes x).mode ≡ 0o775) same m,
            )

    abbrev pub Made : Text → World H → Type 0
    Made content w =
        Ready dir w
        × ((a : Attributes) × (lookup (dir ++ name ∷ []) w.tree ≡ some (file a content)) × Qemu a)

    pub chown-Triple :
        (content : Text)
        → Triple
            (λ w. Ready dir w × Holds (dir ++ name ∷ []) content w)
            (chown {H = H} (dir ++ name ∷ []) 107 107)
            (λ a. Made content)
            Anything
    unfolding chown
    chown-Triple content =
        change-Triple (record { faults = λ w fs h. h }) (λ a. record a { uid = 107; gid = 107 })
          (dir ++ name ∷ [])
          (λ w n (r, (a, at)) e.
            let same : n ≡ file a content = cc in
            (
              Ready-below _ w r,
              (
                record a { uid = 107; gid = 107 },
                lookup-insert_self (dir ++ name ∷ []) _ w.tree
                    ∙ ap
                        (λ x.
                          some (with_attributes (record (attributes x) { uid = 107; gid = 107 }) x))
                        same,
                (refl, refl),
              ),
            ))
