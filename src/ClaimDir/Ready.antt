-- ===== src/ClaimDir/Ready.antt =====
-- `createClaimDirectory`: what it leaves for the workload if it returns.
use dra_example_driver.Common.{◌≡◌, refl, sym, [], ◌∷◌, ◌++◌, some, Text, codes, list_eq, nat_eq}
use mathlib.Core.Path.{subst}
use dra_example_driver.Common.Dict.{lookup}
use dra_example_driver.Failure.{ok, wrap}
use dra_example_driver.Failure.Action.{pure, on_error, ◌>>◌}
use dra_example_driver.Failure.Triples.{Triple, Post, bind-Triple, on_error-Triple, weaken-Triple}
use dra_example_driver.Paths.{FilePath, join_path, walk, step_into}
use dra_example_driver.Naming.Strings.{split}
use dra_example_driver.World.{Host, World, Attributes, directory, file}
use dra_example_driver.World.Files.{mkdir_all, chown, write_file}
use dra_example_driver.World.Keeps.{mkdir_all-Keeps}
use dra_example_driver.ClaimDir.{
  claim_root, claim_dir, set_label, set_owner, create_claim_directory,
}
use dra_example_driver.ClaimDir.Metadata.{metadata_json}
use dra_example_driver.ClaimDir.Json.{IsMetadataOf, metadata_json-IsMetadataOf}
use dra_example_driver.ClaimDir.Created.{
  Anything, Owned, Ready, Made, Qemu, set_owner-Triple, write_file-Triple, chown-Triple,
}

abbrev pub metadata_name : Text
metadata_name = codes "device.json"

pub metadata_path :
    (dir : FilePath) → join_path dir (metadata_name ∷ []) ≡ dir ++ metadata_name ∷ []
unfolding join_path walk step_into split list_eq nat_eq
metadata_path dir = refl

module _ (H : Host) (claim_name request device : Text) where
  abbrev dir : FilePath
  dir = claim_dir claim_name request

  abbrev content : Text
  content = metadata_json device

  -- After the ownership of the two directories is set, the metadata are written.
  made :
      (metadata : FilePath)
      → dir ++ metadata_name ∷ [] ≡ metadata
      → Triple
          (Owned dir)
          (on_error
              (wrap "failed to write device metadata")
              (write_file {H = H} metadata content 0o644)
            >> (on_error (wrap "failed to chown metadata file") (chown metadata 107 107)
                >> (set_label H metadata >> pure dir)))
          (λ d w. (d ≡ dir) × Made dir metadata_name content w)
          Anything
  made metadata e =
      subst
        (λ p.
          Triple (Owned dir)
            (on_error (wrap "failed to write device metadata") (write_file {H = H} p content 0o644)
              >> (on_error (wrap "failed to chown metadata file") (chown p 107 107)
                  >> (set_label H p >> pure dir)))
            (λ d w. (d ≡ dir) × Made dir metadata_name content w) Anything)
        e
        (bind-Triple _ _ (on_error-Triple _ _ (write_file-Triple dir metadata_name content 0o644))
          λ _.
            bind-Triple _ _ (on_error-Triple _ _ (chown-Triple dir metadata_name content))
              λ _. record { run = λ w h. (refl, h) })

  pub created :
      Triple Anything
        (create_claim_directory H claim_name request device)
        (λ d w. (d ≡ dir) × Made dir metadata_name content w)
        Anything
  unfolding create_claim_directory
  created =
      bind-Triple (mkdir_all dir 0o755) _
        (mkdir_all-Keeps (record { tree = λ w t fs h. tt }) dir 0o755)
        λ _.
          bind-Triple (set_owner H (claim_root claim_name)) _
            (weaken-Triple (set_owner H (claim_root claim_name)) (λ w h. h) (λ a w h. tt) (λ w h. h)
              (set_owner-Triple (claim_root claim_name)))
            λ _.
              bind-Triple (set_owner H dir) _ (set_owner-Triple dir)
                λ _. made (join_path dir (metadata_name ∷ [])) (sym (metadata_path dir))

  -- If the directory of a claim and a request is made without an error, then its path is returned,
  -- it is a directory of the user and the group 107 with the mode 0775, and the file device.json in it
  -- belongs to them too and holds the JSON text of an object whose only member, device_id, is the
  -- device.
  pub create_claim_directory_sound :
      (d : FilePath) (w w' : World H)
      → create_claim_directory H claim_name request device w ≡ (ok d, w')
      → (d ≡ claim_dir claim_name request)
        × ((a : Attributes) × (lookup d w'.tree ≡ some (directory a)) × Qemu a × (a.mode ≡ 0o775))
        × ((a : Attributes) × (printed : Text) × (lookup (d ++ metadata_name ∷ []) w'.tree
              ≡ some (file a printed))
            × Qemu a
            × IsMetadataOf device printed)
  create_claim_directory_sound d w w' e =
      let (at, (ready, held)) =
        subst (Post (λ d w. (d ≡ dir) × Made dir metadata_name content w) Anything) e
          (created.run w tt) in
      (
        at,
        subst (λ p. Ready p w') (sym at) ready,
        subst
            (λ p.
              (a : Attributes) × (printed : Text) × (lookup (p ++ metadata_name ∷ []) w'.tree
                ≡ some (file a printed))
              × Qemu a
              × IsMetadataOf device printed)
            (sym at)
            (let (a, there, owned) = held in
              (a, content, there, owned, metadata_json-IsMetadataOf device)),
      )
