-- ===== src/ClaimDir/Way.antt =====
-- What must not be in the way of the directories of claims, and that making some of them keeps it so.
use dra_example_driver.Common.{
  ◌+◌, ◌≤◌, ◌≡◌, refl, sym, ◌∙◌, ap, ◌≢◌, ◌⊎◌, inl, inr, Bool-cases, some, [], ◌∷◌, ◌++◌, Text,
  ◌==◌, nat_eq, list_eq, length, length-append, arith,
}
use dra_example_driver.Common.Dict.{lookup, lookup-insert}
use dra_example_driver.Checkpoint.Claims.{==-eq}
use dra_example_driver.Paths.{FilePath}
use dra_example_driver.World.{Host, World, Node, directory, file, Attributes}
use dra_example_driver.World.Files.{set_node, with_attributes}
use dra_example_driver.ClaimDir.Ready.{metadata_name}

module _ (H : Host) (root : FilePath) where
  -- The path leads to an entry of `root`.
  abbrev pub OnWay : FilePath → Type 0
  OnWay p = (r : Text) × (q : FilePath) × (p ++ q ≡ root ++ r ∷ [])

  -- No file is where a directory is wanted, and no directory where a file is.
  pub record Clear (w : World H) : Type 0 where
    pub ways :
        (p : FilePath)
        → OnWay p
        → (a : Attributes) (content : Text) → lookup p w.tree ≢ some (file a content)
    pub metadata :
        (r : Text) (a : Attributes)
        → lookup (root ++ r ∷ metadata_name ∷ []) w.tree ≢ some (directory a)

  abbrev pub IsDirectory : World H → FilePath → Type 0
  IsDirectory w p = (a : Attributes) × (lookup p w.tree ≡ some (directory a))

  way-length : (p : FilePath) → OnWay p → length p ≤ length root + 1
  way-length p (r, q, e) =
      omega (arith, length-append p q, length-append root (r ∷ []), ap length e)

  pub way_ne : (p : FilePath) (r : Text) → OnWay p → p ≢ root ++ r ∷ metadata_name ∷ []
  way_ne p r way e =
      absurd
        (omega (arith, way-length p way, ap length e, length-append root (r ∷ metadata_name ∷ [])))

  pub lookup-set_node :
      (p q : FilePath) (n m : Node) (w : World H)
      → lookup q (set_node p n w).tree ≡ some m
      → ((q ≡ p) × (n ≡ m)) ⊎ (lookup q w.tree ≡ some m)
  lookup-set_node p q n m w e = elim (Bool-cases (q == p)) [
    | inl same ↦
        let here : lookup q (set_node p n w).tree ≡ some n =
          lookup-insert q p n w.tree ∙ rw same refl in
        inl (==-eq q p same, cc)
    | inr other ↦
        let kept : lookup q (set_node p n w).tree ≡ lookup q w.tree =
          lookup-insert q p n w.tree ∙ rw other refl in
        inr (sym kept ∙ e)
  ]

  -- A directory that was there is there if a node is put where there was none.
  pub directory-set_node :
      (p q : FilePath) (n : Node) (w : World H)
      → ((a : Attributes) → lookup p w.tree ≢ some (directory a))
      → IsDirectory w q
      → IsDirectory (set_node p n w) q
  directory-set_node p q n w free (a, at) = elim (Bool-cases (q == p)) [
    | inl same ↦ absurd (free a (ap (λ x. lookup x w.tree) (sym (==-eq q p same)) ∙ at))
    | inr other ↦ (a, lookup-insert q p n w.tree ∙ rw other at)
  ]

  pub Clear-directory :
      (p : FilePath) (a : Attributes) (w : World H)
      → OnWay p
      → Clear w
      → Clear (set_node p (directory a) w)
  Clear-directory p a w way c = record {
    ways = λ q on b content e. elim (lookup-set_node p q (directory a) (file b content) w e) [
      | inl (_, differ) ↦ cc
      | inr old ↦ c.ways q on b content old
    ];
    metadata = λ r b e.
        elim (lookup-set_node p (root ++ r ∷ metadata_name ∷ []) (directory a) (directory b) w e) [
          | inl (here, _) ↦ way_ne p r way (sym here)
          | inr old ↦ c.metadata r b old
        ];
  }

  pub Clear-file :
      (r : Text) (a : Attributes) (content : Text) (w : World H)
      → Clear w
      → Clear (set_node (root ++ r ∷ metadata_name ∷ []) (file a content) w)
  Clear-file r a content w c = record {
    ways = λ q on b written e.
        elim (lookup-set_node (root ++ r ∷ metadata_name ∷ []) q (file a content) (file b written) w
          e) [ inl (here, _) ↦ way_ne q r on here | inr old ↦ c.ways q on b written old ];
    metadata = λ r' b e.
        elim (lookup-set_node (root ++ r ∷ metadata_name ∷ []) (root ++ r' ∷ metadata_name ∷ [])
          (file a content) (directory b) w e) [
            | inl (_, differ) ↦ cc
            | inr old ↦ c.metadata r' b old
          ];
  }

  pub Clear-change :
      (p : FilePath) (a : Attributes) (n : Node) (w : World H)
      → lookup p w.tree ≡ some n
      → Clear w
      → Clear (set_node p (with_attributes a n) w)
  Clear-change p a (directory b) w at c = record {
    ways = λ q on b' content e. elim (lookup-set_node p q (directory a) (file b' content) w e) [
      | inl (_, differ) ↦ cc
      | inr old ↦ c.ways q on b' content old
    ];
    metadata = λ r b' e.
        elim (lookup-set_node p (root ++ r ∷ metadata_name ∷ []) (directory a) (directory b') w e) [
          | inl (here, _) ↦ c.metadata r b (ap (λ x. lookup x w.tree) here ∙ at)
          | inr old ↦ c.metadata r b' old
        ];
  }
  Clear-change p a (file b content) w at c = record {
    ways = λ q on b' written e. elim (lookup-set_node p q (file a content) (file b' written) w e) [
      | inl (here, _) ↦ c.ways q on b content (ap (λ x. lookup x w.tree) here ∙ at)
      | inr old ↦ c.ways q on b' written old
    ];
    metadata = λ r b' e.
        elim (lookup-set_node p (root ++ r ∷ metadata_name ∷ []) (file a content) (directory b') w
          e) [ inl (_, differ) ↦ cc | inr old ↦ c.metadata r b' old ];
  }

  pub directory-change :
      (p q : FilePath) (a : Attributes) (n : Node) (w : World H)
      → lookup p w.tree ≡ some n
      → IsDirectory w q
      → IsDirectory (set_node p (with_attributes a n) w) q
  directory-change p q a n w at (b, here) = elim (Bool-cases (q == p)) [
    | inr other ↦ (b, lookup-insert q p (with_attributes a n) w.tree ∙ rw other here)
    | inl same ↦
        let is_directory : n ≡ directory b =
          cc (sym at ∙ ap (λ x. lookup x w.tree) (sym (==-eq q p same)) ∙ here) in
        (
          a,
          lookup-insert q p (with_attributes a n) w.tree
              ∙ rw same (ap (λ x. some (with_attributes a x)) is_directory),
        )
  ]
