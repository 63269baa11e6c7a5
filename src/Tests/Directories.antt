-- ===== src/Tests/Directories.antt =====
-- The theorems on the directories of a claim, and `Prepare` of a claim without an allocation.
use dra_example_driver.Common.{
  ◌≡◌, refl, ap, if◌then◌else◌, false, none, some, [], ◌∷◌, ◌++◌, Text, codes, nat_eq, list_eq,
}
use dra_example_driver.Common.Dict.{lookup}
use dra_example_driver.Failure.{panicked}
use dra_example_driver.Api.{ResourceClaim}
use dra_example_driver.Checkpoint.{new_checkpoint, has_claim}
use dra_example_driver.ClaimDir.{claim_dir, create_claim_directory, delete_claim_directory}
use dra_example_driver.ClaimDir.Json.{IsMetadataOf}
use dra_example_driver.ClaimDir.Created.{Qemu}
use dra_example_driver.ClaimDir.Ready.{metadata_name, create_claim_directory_sound}
use dra_example_driver.ClaimDir.SamePath.{edits_at, create_claim_directory-device_edits}
use dra_example_driver.Paths.{show_path}
use dra_example_driver.Profile.Network.{device_edits}
use dra_example_driver.ClaimDir.Deleted.{delete_claim_directory_sound}
use dra_example_driver.World.{World, Attributes, directory, file}
use dra_example_driver.World.Files.{is_below}
use dra_example_driver.State.{prepare}
use dra_example_driver.State.Unallocated.{prepare_unallocated}
use dra_example_driver.Tests.Setup.{toy_host, state, order, claim, result, fresh_world}
use dra_example_driver.Tests.Runs.{runs, prepared_world}

abbrev made_world : World toy_host
made_world =
    (create_claim_directory toy_host claim.name (codes "net") (codes "network-0") fresh_world).1

abbrev deleted_world : World toy_host
deleted_world = (delete_claim_directory toy_host claim.name (codes "net") prepared_world).1

create_claim_directory_sound_example :
    (claim_dir claim.name (codes "net") ≡ claim_dir claim.name (codes "net"))
    × ((a : Attributes) × (lookup (claim_dir claim.name (codes "net")) made_world.tree
          ≡ some (directory a))
        × Qemu a
        × (a.mode ≡ 0o775))
    × ((a : Attributes) × (printed : Text) × (lookup
            (claim_dir claim.name (codes "net") ++ metadata_name ∷ [])
            made_world.tree
          ≡ some (file a printed))
        × Qemu a
        × IsMetadataOf (codes "network-0") printed)
create_claim_directory_sound_example =
    create_claim_directory_sound toy_host claim.name (codes "net") (codes "network-0")
      (claim_dir claim.name (codes "net")) fresh_world made_world (ap (λ r. (r, made_world)) runs.8)

create_claim_directory-device_edits_example :
    (device_edits claim.name (result (codes "net") (codes "network-0"))
      ≡ edits_at (show_path (claim_dir claim.name (codes "net"))) (codes "network-0") (codes "net"))
    × ((a : Attributes) × (lookup (claim_dir claim.name (codes "net")) made_world.tree
          ≡ some (directory a)))
create_claim_directory-device_edits_example =
    create_claim_directory-device_edits toy_host claim.name
      (result (codes "net") (codes "network-0")) (claim_dir claim.name (codes "net")) fresh_world
      made_world (ap (λ r. (r, made_world)) runs.8)

delete_claim_directory_sound_example :
    lookup (claim_dir claim.name (codes "net")) deleted_world.tree ≡ (
      if is_below (claim_dir claim.name (codes "net")) (claim_dir claim.name (codes "net"))
      then none
      else lookup (claim_dir claim.name (codes "net")) prepared_world.tree)
delete_claim_directory_sound_example =
    delete_claim_directory_sound toy_host claim.name (codes "net") prepared_world deleted_world
      (claim_dir claim.name (codes "net")) (ap (λ r. (r, deleted_world)) runs.9)

abbrev unallocated : ResourceClaim
unallocated = record claim { allocation = none }

unrecorded : has_claim claim.uid new_checkpoint ≡ false
unfolding has_claim
unrecorded = refl

prepare_unallocated_example :
    prepare toy_host state order unallocated fresh_world ≡ (panicked, fresh_world)
prepare_unallocated_example =
    prepare_unallocated toy_host state order unallocated fresh_world new_checkpoint refl refl
      unrecorded refl
