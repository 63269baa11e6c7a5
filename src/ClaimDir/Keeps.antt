-- ===== src/ClaimDir/Keeps.antt =====
-- Creating and deleting the directory of a claim changes only the directories.
use dra_example_driver.Common.{Text, codes, [], ◌∷◌}
use dra_example_driver.Failure.{wrap}
use dra_example_driver.Failure.Action.{on_error}
use dra_example_driver.Failure.Triples.{pure-Triple, bind-Triple, on_error-Triple}
use dra_example_driver.Paths.{FilePath, join_path}
use dra_example_driver.World.{Host, World}
use dra_example_driver.World.Files.{mkdir_all, chown, chmod, write_file}
use dra_example_driver.World.Keeps.{
  IgnoresTree, Keeps, mkdir_all-Keeps, chown-Keeps, chmod-Keeps, write_file-Keeps, remove_all-Keeps,
}
use dra_example_driver.ClaimDir.{
  qemu_uid, qemu_gid, claim_root, claim_dir, set_label, set_owner, create_claim_directory,
  delete_claim_directory,
}
use dra_example_driver.ClaimDir.Metadata.{metadata_json}

module _ (H : Host) {P : World H → Type 0} (i : IgnoresTree P) where
  set_label-Keeps : (p : FilePath) → Keeps P (set_label H p)
  set_label-Keeps p = record { run = λ w h. h }

  set_owner-Keeps : (p : FilePath) → Keeps P (set_owner H p)
  set_owner-Keeps p =
      bind-Triple (on_error (wrap "failed to chown") (chown p qemu_uid qemu_gid)) _
        (on_error-Triple _ (chown p qemu_uid qemu_gid) (chown-Keeps i p qemu_uid qemu_gid))
        λ _.
          bind-Triple (on_error (wrap "failed to chmod") (chmod p 0o775)) _
            (on_error-Triple _ (chmod p 0o775) (chmod-Keeps i p 0o775)) λ _. set_label-Keeps p

  pub create_claim_directory-Keeps :
      (claim_name request device : Text)
      → Keeps P (create_claim_directory H claim_name request device)
  unfolding create_claim_directory
  create_claim_directory-Keeps claim_name request device =
      let dir = claim_dir claim_name request in
      let metadata = join_path dir (codes "device.json" ∷ []) in
      let content = metadata_json device in
      bind-Triple (mkdir_all dir 0o755) _ (mkdir_all-Keeps i dir 0o755) λ _.
        bind-Triple (set_owner H (claim_root claim_name)) _
          (set_owner-Keeps (claim_root claim_name))
          λ _. bind-Triple (set_owner H dir) _ (set_owner-Keeps dir) λ _.
            bind-Triple
              (on_error (wrap "failed to write device metadata")
                (write_file metadata content 0o644))
              _
              (on_error-Triple _ (write_file metadata content 0o644)
                (write_file-Keeps i metadata content 0o644))
              λ _.
                bind-Triple
                  (on_error (wrap "failed to chown metadata file")
                    (chown metadata qemu_uid qemu_gid))
                  _
                  (on_error-Triple _ (chown metadata qemu_uid qemu_gid)
                    (chown-Keeps i metadata qemu_uid qemu_gid))
                  λ _.
                    bind-Triple (set_label H metadata) _ (set_label-Keeps metadata)
                      λ _. pure-Triple dir (λ w h. h)

  pub delete_claim_directory-Keeps :
      (claim_name request : Text) → Keeps P (delete_claim_directory H claim_name request)
  unfolding delete_claim_directory
  delete_claim_directory-Keeps claim_name request =
      remove_all-Keeps i (claim_dir claim_name request)
