-- ===== src/State/Directories.antt =====
-- The directories that `Prepare` leaves for the workload.
use dra_example_driver.Common.{
  ◌≡◌, refl, sym, inl, inr, Bool, true, false, some, List, [], ◌∷◌, Text, ◌==◌, nat_eq, list_eq,
  if◌then◌else◌, Exists,
}
use mathlib.Core.Path.{subst}
use dra_example_driver.Common.Dict.{lookup}
use dra_example_driver.Failure.{ok, wrap}
use dra_example_driver.Failure.Action.{Action, pure, on_error, ◌>>◌}
use dra_example_driver.Failure.Triples.{
  Triple, Post, pure-Triple, bind-Triple, bind-lift-Triple, on_error-Triple, weaken-Triple,
  trivial-Triple,
}
use dra_example_driver.Api.{DeviceResult, Allocation, ResourceClaim, Device}
use dra_example_driver.Cdi.Cached.{create_claim_spec_file-Triple}
use dra_example_driver.Cdi.ClaimSpec.{create_claim_spec_file}
use dra_example_driver.Devices.{DeviceState, get_devices}
use dra_example_driver.Compute.{MapOrder}
use dra_example_driver.Checkpoint.{Checkpoint, add_claim_to_checkpoint, has_claim}
use dra_example_driver.CheckpointFile.{write_checkpoint}
use dra_example_driver.CheckpointFile.Atomic.{write_checkpoint-Triple}
use dra_example_driver.CheckpointFile.Read.{stored, read_checkpoint-cases}
use dra_example_driver.ClaimDir.{claim_dir, create_claim_directory}
use dra_example_driver.ClaimDir.Created.{Anything, Ready, Qemu}
use dra_example_driver.ClaimDir.Ready.{created}
use dra_example_driver.ClaimDir.Lasting.{create_claim_directory-Ready}
use dra_example_driver.World.{Host, World, Attributes, directory}
use dra_example_driver.World.Keeps.{Keeps}
use dra_example_driver.State.Publish.{publish}
use dra_example_driver.State.Steps.{publish-Keeps}
use dra_example_driver.State.Defs.{
  create_directories, compute, prepare_allocated, prepare_devices, prepare_fresh, prepare,
}

module _ (H : Host) (s : DeviceState H.Payload H.Status) (claim : ResourceClaim)
    (request : Text) where
  abbrev DirReady : World H → Type 0
  DirReady = Ready (claim_dir claim.name request)

  -- A device of this driver is allocated for the request.
  abbrev pub Allocated : List DeviceResult → Type 0
  Allocated = Exists (λ r. ((r.driver == s.driver_name) ≡ true) × (r.request ≡ request))

  abbrev create_one : DeviceResult → Bool → Action (World H) (Unit {0})
  create_one r mine =
      if mine
      then (on_error (wrap "failed to create claim directory")
            (create_claim_directory H claim.name r.request r.device)
          >> pure tt)
      else pure tt

  create_one-Keeps : (r : DeviceResult) (mine : Bool) → Keeps DirReady (create_one r mine)
  create_one-Keeps r true =
      bind-Triple _ _
        (on_error-Triple _ _ (
          create_claim_directory-Ready (claim_dir claim.name request) claim.name r.request
            r.device))
        λ _. pure-Triple tt (λ w h. h)
  create_one-Keeps r false = pure-Triple tt (λ w h. h)

  create_directories-Keeps :
      (results : List DeviceResult) → Keeps DirReady (create_directories H s claim results)
  unfolding create_directories
  create_directories-Keeps [] = pure-Triple tt (λ w h. h)
  create_directories-Keeps (r ∷ rs) =
      bind-Triple _ _ (create_one-Keeps r (r.driver == s.driver_name))
        λ _. create_directories-Keeps rs

  create_one-makes :
      (r : DeviceResult)
      → r.request ≡ request
      → Triple Anything (create_one r true) (λ a. DirReady) Anything
  create_one-makes r e =
      bind-Triple {Q = λ d. DirReady} _ _
        (on_error-Triple _ _ (
          weaken-Triple (create_claim_directory H claim.name r.request r.device) (λ w h. h)
            (λ d w h. subst (λ x. Ready (claim_dir claim.name x) w) e h.1.0) (λ w h. h)
            (created H claim.name r.request r.device)))
        λ _. pure-Triple tt (λ w h. h)

  create_directories-makes :
      (results : List DeviceResult)
      → Allocated results
      → Triple Anything (create_directories H s claim results) (λ a. DirReady) Anything
  unfolding create_directories
  create_directories-makes [] h = elim h [ ]
  create_directories-makes (r ∷ rs) (inl (mine, e)) =
      bind-Triple _ _
        (subst (λ b. Triple Anything (create_one r b) (λ a. DirReady) Anything) (sym mine)
          (create_one-makes r e))
        λ _.
          weaken-Triple (create_directories H s claim rs) (λ w h. h) (λ a w h. h) (λ w h. tt)
            (create_directories-Keeps rs)
  create_directories-makes (r ∷ rs) (inr later) =
      bind-Triple {Q = λ a. Anything} _ _ (trivial-Triple _) λ _. create_directories-makes rs later

module _ (H : Host) (s : DeviceState H.Payload H.Status) (order : MapOrder H.Payload)
    (claim : ResourceClaim) (request : Text) (a : Allocation)
    (allocated : claim.allocation ≡ some a) (wanted : Allocated H s claim request a.results) where
  prepare_devices-makes :
      Triple Anything (prepare_devices H s order claim) (λ pds. DirReady H s claim request) Anything
  unfolding prepare_devices
  prepare_devices-makes =
      subst
        (λ o.
          Triple Anything (prepare_allocated H s order claim o) (λ pds. DirReady H s claim request)
            Anything)
        (sym allocated)
        (bind-Triple {Q = λ u. DirReady H s claim request} _ _
          (create_directories-makes H s claim request a.results wanted)
          λ _.
            bind-lift-Triple (compute H s order claim) _
              (λ pds e.
                bind-Triple {Q = λ u. DirReady H s claim request} _ _
                  (weaken-Triple (publish H s claim a.results) (λ w h. h) (λ u w h. h) (λ w h. tt)
                    (publish-Keeps (record { cluster = λ w c h. h }) s claim a.results))
                  λ _. pure-Triple pds (λ w h. h))
              (λ w h. tt))

  prepare_fresh-makes :
      (c : Checkpoint)
      → Triple Anything
          (prepare_fresh H s order claim c)
          (λ ds. DirReady H s claim request)
          Anything
  unfolding prepare_fresh
  prepare_fresh-makes c =
      bind-Triple {Q = λ u. DirReady H s claim request} _ _
        (on_error-Triple _ _ prepare_devices-makes)
        λ pds.
          bind-Triple {Q = λ u. DirReady H s claim request} _ _
            (on_error-Triple _ _ (record {
              run = λ w h.
                  (weaken-Triple (create_claim_spec_file H s.cdi claim.uid pds) (λ v g. g)
                      (λ u v g. g.0) (λ v g. tt)
                      (create_claim_spec_file-Triple w.cache s.cdi claim.uid
                        {R = DirReady H s claim request} (record { cache = λ v k g. g }) pds)).run
                    w (h, refl);
            }))
            λ _.
              bind-Triple {Q = λ u. DirReady H s claim request} _ _
                (on_error-Triple _ _ (record {
                  run = λ w h.
                      (weaken-Triple (write_checkpoint H (add_claim_to_checkpoint claim c))
                          (λ v g. g) (λ u v g. g.0) (λ v g. tt)
                          (write_checkpoint-Triple H (add_claim_to_checkpoint claim c)
                            w.checkpoint_file w.temp_files {R = DirReady H s claim request}
                            (record { files = λ v f ts fs g. g }))).run
                        w (h, refl, refl);
                }))
                λ _. pure-Triple (get_devices pds) (λ w h. h)

  prepare_makes :
      (w : World H) (c : Checkpoint)
      → stored H w.checkpoint_file ≡ ok c
      → has_claim claim.uid c ≡ false
      → Post (λ ds. DirReady H s claim request) Anything (prepare H s order claim w)
  unfolding prepare
  prepare_makes w c at new =
      let (fs, cases) = read_checkpoint-cases H w in
      elim cases [
        | inl e ↦ rw (e, at, new) ((prepare_fresh-makes c).run (record w { faults = fs }) tt)
        | inr (message, e) ↦ rw e tt
      ]

  -- If `Prepare` returns for a claim that is not in the checkpoint, and a device of this driver is
  -- allocated for a request of it, then the directory of the request is there, and it has the user
  -- and the group 107 and the mode 0775, whatever was done for the other requests after it was made.
  pub prepare_directories :
      (w w' : World H) (c : Checkpoint) (ds : List Device)
      → stored H w.checkpoint_file ≡ ok c
      → has_claim claim.uid c ≡ false
      → prepare H s order claim w ≡ (ok ds, w')
      → (b : Attributes) × (lookup (claim_dir claim.name request) w'.tree ≡ some (directory b))
        × Qemu b
        × (b.mode ≡ 0o775)
  prepare_directories w w' c ds at new e =
      subst (Post (λ ds. DirReady H s claim request) Anything) e (prepare_makes w c at new)
