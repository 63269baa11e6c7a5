-- ===== src/Paths.antt =====
-- Absolute paths as the lists of their components, and Go's `filepath.Join` on a clean absolute
-- base: what is joined is split at slashes, empty and `.` components vanish, and `..` removes the
-- component before it, at the root none.
use dra_example_driver.Common.{
  ◌≡◌, refl, ap, List, [], ◌∷◌, ◌++◌, Text, codes, ◌==◌, nat_eq, list_eq, if◌then◌else◌,
}
use dra_example_driver.Naming.Strings.{split}

abbrev pub FilePath : Type 0
FilePath = List Text

-- Without the last component.
unfoldable pub parent : FilePath → FilePath
parent [] = []
parent (c ∷ []) = []
parent (c ∷ d ∷ p) = c ∷ parent (d ∷ p)

unfoldable pub step_into : FilePath → Text → FilePath
unfolding parent
step_into p c =
    if c == []
    then p
    else if c == codes "."
    then p
    else if c == codes ".."
    then parent p
    else p ++ c ∷ []

unfoldable pub walk : FilePath → List Text → FilePath
unfolding step_into
walk p [] = p
walk p (c ∷ cs) = walk (step_into p c) cs

unfoldable pub join_path : FilePath → List Text → FilePath
unfolding walk
join_path base [] = base
join_path base (e ∷ es) = join_path (walk base (split b'/' e)) es

-- The clean form of an absolute path.
unfoldable pub path_of : Text → FilePath
unfolding walk
path_of path = walk [] (split b'/' path)

unfoldable pub show_path : FilePath → Text
show_path [] = []
show_path (c ∷ p) = codes "/" ++ c ++ show_path p

-- The last component of a path that is not the root can be taken off again.
pub parent-concat : (p : FilePath) (c : Text) → parent (p ++ c ∷ []) ≡ p
unfolding parent
parent-concat [] c = refl
parent-concat (d ∷ []) c = refl
parent-concat (d ∷ e ∷ p) c = ap (λ q. d ∷ q) (parent-concat (e ∷ p) c)
