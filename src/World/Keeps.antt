-- ===== src/World/Keeps.antt =====
-- System calls on the directories of claims change only the directories and the list of faults:
-- whatever else holds of the world before holds after, also after a failure.
use dra_example_driver.Common.{
  ◌≡◌, refl, ap, ◌⊎◌, inl, inr, ℕ, String, Option, none, some, List, [], ◌∷◌, ◌++◌, Text, nat_eq,
  list_eq,
}
use dra_example_driver.Common.Dict.{lookup, insert}
use dra_example_driver.Failure.{Outcome, ok, err, failure, not_exist}
use dra_example_driver.Failure.Action.{Action, gets, lift, modify}
use dra_example_driver.Failure.Triples.{
  Triple, Post, pure-Triple, raise-Triple, gets-Triple, lift-Triple, modify-Triple, bind-Triple,
}
use dra_example_driver.Paths.{FilePath, parent}
use dra_example_driver.World.Defs.{
  Host, World, Tree, Node, directory, file, Attributes, attempt, attempt_with,
}
use dra_example_driver.World.Files.{
  set_node, attributes, with_attributes, change_node, change_attributes, make_one, opened,
  owned_by_root, make_dirs, mkdir_all, chown, chmod, write_file, remove_all, drop_below,
}

module _ {H : Host} (P : World H → Type 0) where
  pub record IgnoresFaults : Type 0 where
    pub faults : (w : World H) (fs : List (Option String)) → P w → P (record w { faults = fs })

  pub record IgnoresTree : Type 0 where
    pub tree :
        (w : World H) (t : Tree) (fs : List (Option String))
        → P w
        → P (record w { tree = t; faults = fs })

-- `m` keeps `P`, however it ends.
abbrev pub Keeps : {H : Host} {A : Type 0} → (World H → Type 0) → Action (World H) A → Type 0
Keeps P m = Triple P m (λ a. P) P

-- A system call lets the caller go on or fails with a message, and takes from the list of faults.
abbrev pub Attempted : {H : Host} → World H → Outcome (Unit {0}) × World H → Type 0
Attempted w r =
    (fs : List (Option String)) × ((r ≡ (ok tt, record w { faults = fs }))
      ⊎ ((message : String) × (r ≡ (err (failure message), record w { faults = fs }))))

attempt_with-cases :
    {H : Host} (fs : List (Option String)) (w : World H)
    → w.faults ≡ fs
    → Attempted w (attempt_with fs w)
attempt_with-cases [] w e = (w.faults, inl refl)
attempt_with-cases (none ∷ fs) w e = (fs, inl refl)
attempt_with-cases (some message ∷ fs) w e = (fs, inr (message, refl))

pub attempt-cases : {H : Host} (w : World H) → Attempted w (attempt w)
unfolding attempt
attempt-cases w = attempt_with-cases w.faults w refl

-- With no faults left every system call goes through.
pub attempt_calm : {H : Host} (w : World H) → w.faults ≡ [] → attempt w ≡ (ok tt, w)
unfolding attempt
attempt_calm w e = ap (λ fs. attempt_with fs w) e

-- A system call that is granted goes through.
pub attempt_granted :
    {H : Host} (w : World H) (fs : List (Option String))
    → w.faults ≡ none ∷ fs
    → attempt w ≡ (ok tt, record w { faults = fs })
unfolding attempt
attempt_granted w fs e = ap (λ f. attempt_with f w) e

-- A system call that is refused fails with the message.
pub attempt_refused :
    {H : Host} (w : World H) (message : String) (fs : List (Option String))
    → w.faults ≡ some message ∷ fs
    → attempt w ≡ (err (failure message), record w { faults = fs })
unfolding attempt
attempt_refused w message fs e = ap (λ f. attempt_with f w) e

module _ {H : Host} {P : World H → Type 0} where
  pub lift-Keeps : {A : Type 0} (r : Outcome A) → Keeps P (lift r)
  lift-Keeps r = lift-Triple r (λ a e w h. h) (λ w h. h)

  attempt_with-Post :
      (fs : List (Option String)) (w : World H)
      → IgnoresFaults P
      → P w
      → Post (λ a. P) P (attempt_with fs w)
  attempt_with-Post [] w i p = p
  attempt_with-Post (none ∷ fs) w i p = i.faults w fs p
  attempt_with-Post (some message ∷ fs) w i p = i.faults w fs p

  pub attempt-Keeps : IgnoresFaults P → Keeps P (attempt {H = H})
  unfolding attempt
  attempt-Keeps i = record { run = λ w p. attempt_with-Post w.faults w i p }

module _ {H : Host} {P : World H → Type 0} (i : IgnoresTree P) where
  pub tree-faults : IgnoresFaults P
  tree-faults = record { faults = λ w fs p. i.tree w w.tree fs p }

  set_node-Keeps : (p : FilePath) (n : Node) → Keeps P (modify (set_node p n))
  set_node-Keeps p n = modify-Triple (set_node p n) (λ w h. i.tree w (insert p n w.tree) w.faults h)

  change-Keeps :
      (f : Attributes → Attributes) (p : FilePath) → Keeps P (change_attributes {H = H} f p)
  change-Keeps f p = bind-Triple attempt _ (attempt-Keeps tree-faults) λ _.
      bind-Triple (gets (λ w. lookup p w.tree)) _ (gets-Triple _ (λ w h. h)) λ found. changed found
    where
      changed : (found : Option Node) → Keeps P (change_node {H = H} f p found)
      changed none = raise-Triple not_exist (λ w h. h)
      changed (some n) = set_node-Keeps p (with_attributes (f (attributes n)) n)

  pub chown-Keeps : (p : FilePath) (uid gid : ℕ) → Keeps P (chown {H = H} p uid gid)
  unfolding chown
  chown-Keeps p uid gid = change-Keeps (λ a. record a { uid = uid; gid = gid }) p

  pub chmod-Keeps : (p : FilePath) (mode : ℕ) → Keeps P (chmod {H = H} p mode)
  unfolding chmod
  chmod-Keeps p mode = change-Keeps (λ a. record a { mode = mode }) p

  pub write_file-Keeps :
      (p : FilePath) (content : Text) (mode : ℕ) → Keeps P (write_file {H = H} p content mode)
  unfolding write_file
  write_file-Keeps p content mode = bind-Triple attempt _ (attempt-Keeps tree-faults) λ _.
      bind-Triple (gets (λ w. lookup (parent p) w.tree)) _ (gets-Triple _ (λ w h. h)) λ above.
        bind-Triple (gets (λ w. lookup p w.tree)) _ (gets-Triple _ (λ w h. h)) λ found.
          bind-Triple (lift (opened mode above found)) _
            (lift-Triple (opened mode above found) (λ a e w h. h) (λ w h. h))
            λ a. bind-Triple (modify (set_node p (file a []))) _ (set_node-Keeps p _) λ _.
              bind-Triple attempt _ (attempt-Keeps tree-faults)
                λ _. set_node-Keeps p (file a content)

  pub remove_all-Keeps : (p : FilePath) → Keeps P (remove_all {H = H} p)
  unfolding remove_all
  remove_all-Keeps p =
      bind-Triple attempt _ (attempt-Keeps tree-faults)
        λ _. modify-Triple _ (λ w h. i.tree w (drop_below p w.tree) w.faults h)

  make_dirs-Keeps :
      (mode : ℕ) (above : FilePath) (cs : List Text) → Keeps P (make_dirs {H = H} mode above cs)
  unfolding make_dirs
  make_dirs-Keeps mode above [] = pure-Triple tt (λ w h. h)
  make_dirs-Keeps mode above (c ∷ cs) =
      bind-Triple (gets (λ w. lookup (above ++ c ∷ []) w.tree)) _ (gets-Triple _ (λ w h. h))
        λ found. made found (make_dirs-Keeps mode (above ++ c ∷ []) cs)
    where
      made :
          (found : Option Node)
          → Keeps P (make_dirs {H = H} mode (above ++ c ∷ []) cs)
          → Keeps P
              (make_one mode (above ++ c ∷ []) found (make_dirs {H = H} mode (above ++ c ∷ []) cs))
      made none h = bind-Triple attempt _ (attempt-Keeps tree-faults) λ _.
          bind-Triple (modify (set_node (above ++ c ∷ []) (directory (owned_by_root mode)))) _
            (set_node-Keeps (above ++ c ∷ []) (directory (owned_by_root mode))) (λ _. h)
      made (some (directory a)) h = h
      made (some (file a content)) h = raise-Triple _ (λ w p. p)

  pub mkdir_all-Keeps : (p : FilePath) (mode : ℕ) → Keeps P (mkdir_all {H = H} p mode)
  unfolding mkdir_all
  mkdir_all-Keeps p mode = make_dirs-Keeps mode [] p
