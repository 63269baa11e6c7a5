-- ===== src/Profile/Network/Directories.antt =====
-- `CreateClaimDirectory` and `DeleteClaimDirectory` of internal/profiles/network/network.go. No other
-- code of the repository calls them.
use dra_example_driver.Common.{
  ◌≡◌, sym, ◌∙◌, ap, none, [], ◌∷◌, Text, nat_eq, list_eq, inl, inr, if◌then◌else◌,
}
use dra_example_driver.Common.Dict.{lookup}
use dra_example_driver.Failure.{ok, wrap}
use dra_example_driver.Failure.Action.{Action, pure, on_error, ◌>>◌}
use dra_example_driver.ClaimDir.Deleted.{lookup-drop_below}
use dra_example_driver.Paths.{FilePath, join_path}
use dra_example_driver.Profile.Network.{host_base_dir}
use dra_example_driver.World.{Host, World}
use dra_example_driver.World.Files.{mkdir_all, remove_all, is_below}
use dra_example_driver.World.Keeps.{attempt-cases}

-- `claimDir`
unfoldable pub device_dir : Text → Text → Text → FilePath
device_dir claim_name request_name device_name =
    join_path host_base_dir (claim_name ∷ request_name ∷ device_name ∷ [])

module _ (H : Host) where
  unfoldable pub create_claim_directory : Text → Text → Text → Action (World H) FilePath
  unfolding device_dir
  create_claim_directory claim_name request_name device_name = do
    on_error (wrap "failed to create claim directory")
        (mkdir_all (device_dir claim_name request_name device_name) 0o755)
    pure (device_dir claim_name request_name device_name)

  unfoldable pub delete_claim_directory : Text → Text → Text → Action (World H) (Unit {0})
  unfolding device_dir
  delete_claim_directory claim_name request_name device_name =
      on_error (wrap "failed to delete claim directory")
        (remove_all (device_dir claim_name request_name device_name))

  -- If the directory is deleted, then nothing is at or below it, and all else is as it was.
  pub delete_claim_directory_lem :
      (claim_name request_name device_name : Text) (w w' : World H) (q : FilePath)
      → delete_claim_directory claim_name request_name device_name w ≡ (ok tt, w')
      → lookup q w'.tree ≡ (
          if is_below (device_dir claim_name request_name device_name) q
          then none
          else lookup q w.tree)
  unfolding delete_claim_directory remove_all
  delete_claim_directory_lem claim_name request_name device_name w w' q e =
      let (fs, cases) = attempt-cases w in
      elim cases [
        | inl through ↦
            let left = rw through at e in
            sym (ap (λ r. lookup q r.1.tree) left)
            ∙ lookup-drop_below (device_dir claim_name request_name device_name) q w.tree
        | inr (message, refused) ↦ absurd (let broken = rw refused at e in cc)
      ]
