-- ===== src/World/Files.antt =====
-- The functions of Go's `os` that the driver uses on the directories of claims. The permission bits
-- are those that are asked for; the umask is not in the model.
use dra_example_driver.Common.{
  ℕ, Bool, true, false, Option, none, some, List, [], ◌∷◌, ◌++◌, Text, ◌==◌, nat_eq, list_eq,
  if◌then◌else◌,
}
use dra_example_driver.Common.Dict.{lookup, insert}
use dra_example_driver.Failure.{failure, not_exist, Outcome, ok, err}
use dra_example_driver.Failure.Action.{Action, pure, raise, gets, lift, modify, ◌>>=◌, ◌>>◌}
use dra_example_driver.Paths.{FilePath, parent}
use dra_example_driver.World.Defs.{Host, World, Node, directory, file, Attributes, Tree, attempt}

abbrev pub owned_by_root : ℕ → Attributes
owned_by_root mode = record { uid = 0; gid = 0; mode = mode }

abbrev pub set_node : {H : Host} → FilePath → Node → World H → World H
set_node p n w = record w { tree = insert p n w.tree }

abbrev pub attributes : Node → Attributes
attributes (directory a) = a
attributes (file a content) = a

abbrev pub with_attributes : Attributes → Node → Node
with_attributes a (directory b) = directory a
with_attributes a (file b content) = file a content

-- The path is `p` or lies below it.
unfoldable pub is_below : FilePath → FilePath → Bool
is_below [] q = true
is_below (c ∷ p) [] = false
is_below (c ∷ p) (d ∷ q) = if c == d then is_below p q else false

unfoldable pub drop_below : FilePath → Tree → Tree
unfolding is_below
drop_below p [] = []
drop_below p ((q, n) ∷ t) = if is_below p q then drop_below p t else (q, n) ∷ drop_below p t

-- The attributes of a file once it is open for writing, from the nodes at its parent and at itself.
abbrev pub opened : ℕ → Option Node → Option Node → Outcome Attributes
opened mode (some (directory b)) none = ok (owned_by_root mode)
opened mode (some (directory b)) (some (file a content)) = ok a
opened mode (some (directory b)) (some (directory a)) = err (failure "is a directory")
opened mode (some (file b content)) found = err (failure "not a directory")
opened mode none found = err not_exist

-- What is at a path, from the node at its first part, its other parts and what is at them.
abbrev found : Option Node → List Text → Outcome Node → Outcome Node
found none cs rest = err not_exist
found (some n) [] rest = ok n
found (some (directory a)) (c ∷ cs) rest = rest
found (some (file a content)) (c ∷ cs) rest = err (failure "not a directory")

-- What is at the path below `above`: each directory on the way has to be there.
unfoldable pub find : Tree → FilePath → List Text → Outcome Node
find t above [] = ok (directory (owned_by_root 0o755))
find t above (c ∷ cs) = found (lookup (above ++ c ∷ []) t) cs (find t (above ++ c ∷ []) cs)

module _ {H : Host} where
  -- The directory `p` is made if nothing is there; `rest` makes those below it.
  abbrev pub make_one :
      ℕ → FilePath → Option Node → Action (World H) (Unit {0}) → Action (World H) (Unit {0})
  make_one mode p none rest = do attempt; modify (set_node p (directory (owned_by_root mode))); rest
  make_one mode p (some (directory a)) rest = rest
  make_one mode p (some (file a content)) rest = raise (failure "not a directory")

  unfoldable pub make_dirs : ℕ → FilePath → List Text → Action (World H) (Unit {0})
  make_dirs mode above [] = pure tt
  make_dirs mode above (c ∷ cs) = do
    found ← gets (λ w. lookup (above ++ c ∷ []) w.tree)
    make_one mode (above ++ c ∷ []) found (make_dirs mode (above ++ c ∷ []) cs)

  -- `os.MkdirAll` makes the directories of a path that are missing, one system call for each.
  unfoldable pub mkdir_all : FilePath → ℕ → Action (World H) (Unit {0})
  unfolding make_dirs
  mkdir_all p mode = make_dirs mode [] p

  abbrev pub change_node :
      (Attributes → Attributes) → FilePath → Option Node → Action (World H) (Unit {0})
  change_node f p none = raise not_exist
  change_node f p (some n) = modify (set_node p (with_attributes (f (attributes n)) n))

  abbrev pub change_attributes : (Attributes → Attributes) → FilePath → Action (World H) (Unit {0})
  change_attributes f p = do attempt; found ← gets (λ w. lookup p w.tree); change_node f p found

  unfoldable pub chown : FilePath → ℕ → ℕ → Action (World H) (Unit {0})
  chown p uid gid = change_attributes (λ a. record a { uid = uid; gid = gid }) p

  unfoldable pub chmod : FilePath → ℕ → Action (World H) (Unit {0})
  chmod p mode = change_attributes (λ a. record a { mode = mode }) p

  -- `os.WriteFile` truncates the file or makes it, and then writes; each may fail.
  unfoldable pub write_file : FilePath → Text → ℕ → Action (World H) (Unit {0})
  unfolding parent
  write_file p content mode = do
    attempt
    above ← gets (λ w. lookup (parent p) w.tree)
    found ← gets (λ w. lookup p w.tree)
    a ← lift (opened mode above found)
    modify (set_node p (file a []))
    attempt
    modify (set_node p (file a content))

  -- `os.RemoveAll` removes the path and all below it, and is content if there is nothing.
  unfoldable pub remove_all : FilePath → Action (World H) (Unit {0})
  unfolding drop_below
  remove_all p = do attempt; modify (λ w. record w { tree = drop_below p w.tree })

  -- `os.Stat`
  unfoldable pub stat : FilePath → Action (World H) Node
  unfolding find
  stat p = do attempt; node ← gets (λ w. find w.tree [] p); lift node
