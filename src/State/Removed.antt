-- ===== src/State/Removed.antt =====
-- Which directories `Unprepare` removes.
use dra_example_driver.Common.{
  ◌≡◌, refl, ◌∙◌, ap, Bool, false, Option, none, some, List, [], ◌∷◌, Text, if◌then◌else◌, any,
  arith, nat_eq, list_eq,
}
use dra_example_driver.Common.Dict.{lookup}
use dra_example_driver.Failure.{Outcome, ok, err, panicked, describe}
use dra_example_driver.Failure.Action.{Action, on_error, ◌>>=◌, ◌>>◌}
use dra_example_driver.Failure.Triples.{
  Post, pure-Triple, bind-Triple, on_error-Triple, weaken-Triple,
}
use dra_example_driver.Cdi.Cached.{delete_claim_spec_file-Triple}
use dra_example_driver.Cdi.ClaimSpec.{delete_claim_spec_file}
use dra_example_driver.Devices.{DeviceState}
use dra_example_driver.Checkpoint.{
  PreparedClaim, Checkpoint, find_claim, request_of, remove_claim_from_checkpoint,
}
use dra_example_driver.CheckpointFile.{write_checkpoint}
use dra_example_driver.CheckpointFile.Atomic.{write_checkpoint-Triple}
use dra_example_driver.CheckpointFile.Read.{stored, read_checkpoint_calm}
use dra_example_driver.ClaimDir.{claim_dir, delete_claim_directory}
use dra_example_driver.ClaimDir.Deleted.{lookup-drop_below}
use dra_example_driver.Paths.{FilePath}
use dra_example_driver.World.{Host, World, Tree}
use dra_example_driver.World.Files.{is_below, drop_below, remove_all}
use dra_example_driver.World.Keeps.{Keeps, attempt_calm}
use dra_example_driver.State.Defs.{
  delete_directories, delete_found, unprepare_devices, remove_from, unprepare,
}

-- The tree without the directories that are recorded for the devices of the claim.
unfoldable pub removed : PreparedClaim → List Text → Tree → Tree
removed c [] t = t
removed c (device ∷ devices) t =
    removed c devices (drop_below (claim_dir c.name (request_of c device)) t)

pub removed_found : Option PreparedClaim → Tree → Tree
removed_found none t = t
removed_found (some c) t = removed c c.devices t

-- The path is, or lies below, the directory of a request that is recorded for the claim.
abbrev pub is_recorded : Option PreparedClaim → FilePath → Bool
is_recorded none q = false
is_recorded (some c) q =
    any (λ device. is_below (claim_dir c.name (request_of c device)) q) c.devices

pub lookup-removed :
    (c : PreparedClaim) (devices : List Text) (t : Tree) (q : FilePath)
    → lookup q (removed c devices t) ≡ (
        if any (λ device. is_below (claim_dir c.name (request_of c device)) q) devices
        then none
        else lookup q t)
unfolding removed
lookup-removed c [] t q = refl
lookup-removed c (device ∷ devices) t q = ground (
  arith,
  lookup-removed c devices (drop_below (claim_dir c.name (request_of c device)) t) q,
  lookup-drop_below (claim_dir c.name (request_of c device)) q t,
)

pub lookup-removed_found :
    (found : Option PreparedClaim) (t : Tree) (q : FilePath)
    → lookup q (removed_found found t) ≡ (if is_recorded found q then none else lookup q t)
unfolding removed_found
lookup-removed_found none t q = refl
lookup-removed_found (some c) t q = lookup-removed c c.devices t q

module _ (H : Host) (s : DeviceState H.Payload H.Status) where
  delete_directories_calm :
      (c : PreparedClaim) (devices : List Text) (w : World H)
      → w.faults ≡ []
      → delete_directories H s c devices w ≡ (ok tt, record w { tree = removed c devices w.tree })
  unfolding delete_directories delete_claim_directory remove_all removed
  delete_directories_calm c [] w calm = refl
  delete_directories_calm c (device ∷ devices) w calm = rw (attempt_calm w calm) (
      delete_directories_calm c devices
        (record w { tree = drop_below (claim_dir c.name (request_of c device)) w.tree }) calm)

  pub delete_found_calm :
      (found : Option PreparedClaim) (w : World H)
      → w.faults ≡ []
      → delete_found H s found w ≡ (ok tt, record w { tree = removed_found found w.tree })
  unfolding removed_found
  delete_found_calm none w calm = refl
  delete_found_calm (some c) w calm = delete_directories_calm c c.devices w calm

  module _ (claim_uid : Text) (c : Checkpoint) where
    -- What `Unprepare` does after the directories are removed.
    abbrev finish : Action (World H) (Unit {0})
    finish = remove_from H s claim_uid (some c) >>= λ left.
        on_error (describe "unable to delete CDI spec file for claim")
          (delete_claim_spec_file H s.cdi claim_uid)
        >> on_error (describe "unable to sync to checkpoint") (write_checkpoint H left)

    finish-Keeps : (t : Tree) → Keeps (λ w. w.tree ≡ t) finish
    finish-Keeps t =
        bind-Triple _ _
          (pure-Triple {Q = λ u w. w.tree ≡ t} (remove_claim_from_checkpoint claim_uid c)
            (λ w h. h))
          λ left.
            bind-Triple {Q = λ u w. w.tree ≡ t} _ _
              (on_error-Triple (describe "unable to delete CDI spec file for claim") _ (record {
                run = λ w h.
                    (weaken-Triple (delete_claim_spec_file H s.cdi claim_uid) (λ v g. g)
                        (λ u v g. g.0) (λ v g. g.0)
                        (delete_claim_spec_file-Triple w.cache s.cdi claim_uid {R = λ v. v.tree ≡ t}
                          (record { cache = λ v k g. g }))).run
                      w (h, refl);
              }))
              λ _. on_error-Triple (describe "unable to sync to checkpoint") _ (record {
                run = λ w h.
                    (weaken-Triple (write_checkpoint H left) (λ v g. g) (λ u v g. g.0) (λ v g. g.0)
                        (write_checkpoint-Triple H left w.checkpoint_file w.temp_files
                          {R = λ v. v.tree ≡ t} (record { files = λ v f ts fs g. g }))).run
                      w (h, refl, refl);
              })

  either_way :
      {A : Type 0} (P : World H → Type 0) (r : Outcome A × World H) → Post (λ a. P) P r → P r.1
  either_way P (ok a, w) h = h
  either_way P (err e, w) h = h
  either_way P (panicked, w) h = h

  -- If the checkpoint can be decoded and no system call fails, then `Unprepare` leaves nothing at or
  -- below the directory of any request that the checkpoint records for a device of the claim, and
  -- everything else in the tree is as it was, also if removing the CDI spec or writing the checkpoint
  -- fails.
  pub unprepare_directories :
      (claim_uid : Text) (w : World H) (c : Checkpoint) (q : FilePath)
      → w.faults ≡ []
      → stored H w.checkpoint_file ≡ ok c
      → lookup q (unprepare H s claim_uid w).1.tree
        ≡ (if is_recorded (find_claim claim_uid c.prepared_claims) q then none else lookup q w.tree)
  unfolding unprepare unprepare_devices
  unprepare_directories claim_uid w c q calm at =
      let found = find_claim claim_uid c.prepared_claims in
      let left = record w { tree = removed_found found w.tree } in
      rw (read_checkpoint_calm H w calm, at, delete_found_calm found w calm)
        (ap (lookup q) (
            either_way (λ v. v.tree ≡ left.tree) (finish claim_uid c left)
              ((finish-Keeps claim_uid c left.tree).run left refl))
          ∙ lookup-removed_found found w.tree q)
