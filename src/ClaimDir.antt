-- ===== src/ClaimDir.antt =====
-- `createClaimDirectory` and `deleteClaimDirectory` of cmd/dra-example-kubeletplugin/state.go.
pub mod Metadata
pub mod Json
pub mod Keeps
pub mod SamePath
pub mod Confined
pub mod Lasting
pub mod Created
pub mod Ready
pub mod Way
pub mod Smooth
pub mod Total
pub mod Deleted
use dra_example_driver.Common.{ℕ, List, [], ◌∷◌, ◌++◌, Text, codes}
use dra_example_driver.Failure.{Error, about, wrap}
use dra_example_driver.Failure.Action.{Action, pure, gets, on_error, ◌>>=◌, ◌>>◌}
use dra_example_driver.Paths.{FilePath, join_path}
use dra_example_driver.Naming.{extract_stable_claim_name}
use dra_example_driver.World.{Host, World}
use dra_example_driver.World.Files.{mkdir_all, chown, chmod, write_file, remove_all}
use Metadata.{metadata_json}

-- `baseDir`, /var/run/kubevirt/cdi
abbrev pub base_dir : FilePath
base_dir = codes "var" ∷ codes "run" ∷ codes "kubevirt" ∷ codes "cdi" ∷ []

abbrev pub qemu_uid : ℕ
qemu_uid = 107

abbrev pub qemu_gid : ℕ
qemu_gid = 107

unfoldable pub claim_root : Text → FilePath
claim_root claim_name = join_path base_dir (extract_stable_claim_name claim_name ∷ [])

unfoldable pub claim_dir : Text → Text → FilePath
claim_dir claim_name request =
    join_path base_dir (extract_stable_claim_name claim_name ∷ request ∷ [])

module _ (H : Host) where
  -- The error of `SetFileLabel` is logged and dropped.
  abbrev pub set_label : FilePath → Action (World H) (Unit {0})
  set_label p = do
    ignored ← gets (λ w. H.set_file_label p (codes "system_u:object_r:container_file_t:s0"))
    pure tt

  -- One round of the loop over `claimRoot` and `claimDir`.
  abbrev pub set_owner : FilePath → Action (World H) (Unit {0})
  set_owner p = do
    on_error (wrap "failed to chown") (chown p qemu_uid qemu_gid)
    on_error (wrap "failed to chmod") (chmod p 0o775)
    set_label p

  unfoldable pub create_claim_directory : Text → Text → Text → Action (World H) FilePath
  unfolding claim_root claim_dir metadata_json
  create_claim_directory claim_name request device =
      let dir = claim_dir claim_name request in
      let metadata = join_path dir (codes "device.json" ∷ []) in
      do
        mkdir_all dir 0o755
        set_owner (claim_root claim_name)
        set_owner dir
        on_error (wrap "failed to write device metadata")
            (write_file metadata (metadata_json device) 0o644)
        on_error (wrap "failed to chown metadata file") (chown metadata qemu_uid qemu_gid)
        set_label metadata
        pure dir

  unfoldable pub delete_claim_directory : Text → Text → Action (World H) (Unit {0})
  unfolding claim_dir
  delete_claim_directory claim_name request = remove_all (claim_dir claim_name request)
