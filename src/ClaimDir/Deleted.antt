-- ===== src/ClaimDir/Deleted.antt =====
-- What the tree holds once the directory of a claim is deleted.
use dra_example_driver.Common.{
  ◌≡◌, sym, ◌∙◌, ap, inl, inr, Bool-cases, if◌then◌else◌, none, [], ◌∷◌, Text, ◌==◌, nat_eq,
  list_eq, arith,
}
use dra_example_driver.Common.Dict.{lookup}
use dra_example_driver.Failure.{ok}
use dra_example_driver.Failure.Action.{>>=-eq-ok}
use dra_example_driver.Paths.{FilePath}
use dra_example_driver.World.{Host, World, Tree, attempt}
use dra_example_driver.World.Files.{is_below, drop_below, remove_all}
use dra_example_driver.World.Keeps.{attempt-cases}
use dra_example_driver.Checkpoint.Claims.{==-eq}
use dra_example_driver.ClaimDir.{claim_dir, delete_claim_directory}

pub lookup-drop_below :
    (p q : FilePath) (t : Tree)
    → lookup q (drop_below p t) ≡ (if is_below p q then none else lookup q t)
unfolding lookup drop_below
lookup-drop_below p q [] = ground arith
lookup-drop_below p q ((r, n) ∷ t) = elim (Bool-cases (q == r)) [
  | inl same ↦ let e = ==-eq q r same in ground (arith, lookup-drop_below p q t, ap (is_below p) e)
  | inr other ↦ ground (arith, lookup-drop_below p q t)
]

pub attempt-tree : {H : Host} (w : World H) → (attempt w).1.tree ≡ w.tree
attempt-tree w =
    let (fs, cases) = attempt-cases w in
    elim cases [ inl e ↦ ap (λ r. r.1.tree) e | inr (message, e) ↦ ap (λ r. r.1.tree) e ]

module _ (H : Host) where
  -- If the directory of a claim and a request is deleted without an error, then nothing is left at
  -- it or below it, and everything else in the tree is as it was.
  pub delete_claim_directory_sound :
      (claim_name request : Text) (w w' : World H) (q : FilePath)
      → delete_claim_directory H claim_name request w ≡ (ok tt, w')
      → lookup q w'.tree
        ≡ (if is_below (claim_dir claim_name request) q then none else lookup q w.tree)
  unfolding delete_claim_directory remove_all
  delete_claim_directory_sound claim_name request w w' q e =
      let (_, v, called, rest) = >>=-eq-ok attempt _ w w' tt e in
      let same : v.tree ≡ w.tree = sym (ap (λ r. r.1.tree) called) ∙ attempt-tree w in
      ap (λ r. lookup q r.1.tree) (sym rest)
      ∙ ap (λ t. lookup q (drop_below (claim_dir claim_name request) t)) same
      ∙ lookup-drop_below (claim_dir claim_name request) q w.tree
