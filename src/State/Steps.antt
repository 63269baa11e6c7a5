-- ===== src/State/Steps.antt =====
-- What the parts of `Prepare` and `Unprepare` leave alone, and what they return.
use dra_example_driver.Common.{
  ◌≡◌, String, Bool, true, false, Option, none, some, List, [], ◌∷◌, Text, ◌==◌, nat_eq, list_eq,
  if◌then◌else◌,
}
use dra_example_driver.Failure.{Outcome, ok, err, panicked, wrap}
use dra_example_driver.Failure.Action.{Action, pure, on_error, try, ◌>>◌}
use dra_example_driver.Failure.Triples.{
  Triple, Post, pure-Triple, panic-Triple, bind-Triple, bind-lift-Triple, on_error-Triple,
  try-Triple, weaken-Triple,
}
use dra_example_driver.Api.{DeviceResult, Allocation, ResourceClaim}
use dra_example_driver.Devices.{DeviceState, StatusBuilder}
use dra_example_driver.Compute.{MapOrder}
use dra_example_driver.Checkpoint.{PreparedClaim, Checkpoint, request_of, find_claim}
use dra_example_driver.ClaimDir.{create_claim_directory, delete_claim_directory}
use dra_example_driver.ClaimDir.Keeps.{create_claim_directory-Keeps, delete_claim_directory-Keeps}
use dra_example_driver.World.{Host, World, Tree}
use dra_example_driver.World.Keeps.{IgnoresTree, Keeps}
use dra_example_driver.State.Publish.{
  on_cluster, update_device_status, publish_statuses, publish_with, publish,
}
use dra_example_driver.State.Defs.{
  create_directories, compute, prepare_allocated, prepare_devices, delete_directories, delete_found,
  unprepare_devices,
}

module _ {H : Host} (P : World H → Type 0) where
  -- `P` speaks of the driver's files and of the CDI cache only.
  pub record IgnoresSurroundings : Type 0 where
    pub surroundings :
        (w : World H) (t : Tree) (c : H.Cluster) (fs : List (Option String))
        → P w
        → P (record w { tree = t; cluster = c; faults = fs })

module _ {H : Host} (P : World H → Type 0) where
  pub record IgnoresCluster : Type 0 where
    pub cluster : (w : World H) (c : H.Cluster) → P w → P (record w { cluster = c })

module _ {H : Host} {P : World H → Type 0} (i : IgnoresCluster P) where
  on_cluster-Keeps : {A : Type 0} (m : Action H.Cluster A) → Keeps P (on_cluster H m)
  on_cluster-Keeps {A} m = record {
    run = λ w h.
        go (m w.cluster).0 (record w { cluster = (m w.cluster).1 }) (i.cluster w (m w.cluster).1 h);
  }
    where
      go : (r : Outcome A) (w : World H) → P w → Post (λ a. P) P (r, w)
      go (ok a) w h = h
      go (err e) w h = h
      go panicked w h = h

  -- Publishing the status of the devices changes only the API server.
  pub publish-Keeps :
      (s : DeviceState H.Payload H.Status) (claim : ResourceClaim) (results : List DeviceResult)
      → Keeps P (publish H s claim results)
  unfolding publish
  publish-Keeps s claim results = with s.status_builder
    where
      update : (statuses : List H.Status) → Keeps P (publish_statuses H claim statuses)
      update [] = pure-Triple tt (λ w h. h)
      update (x ∷ xs) =
          bind-Triple (try (update_device_status H claim.namespace claim.name (x ∷ xs))) _
            (try-Triple {Q = λ a. P} (update_device_status H claim.namespace claim.name (x ∷ xs))
              (weaken-Triple _ (λ w h. h) (λ a w h. h) (λ w h. (h, λ e. h)) (on_cluster-Keeps _)))
            (λ _. pure-Triple tt (λ w h. h))

      with : (b : Option (StatusBuilder H.Status)) → Keeps P (publish_with H s claim results b)
      with none = pure-Triple tt (λ w h. h)
      with (some builder) = update _

module _ {H : Host} {P : World H → Type 0} (i : IgnoresSurroundings P) where
  pub ignores_tree : IgnoresTree P
  ignores_tree = record { tree = λ w t fs h. i.surroundings w t w.cluster fs h }

  ignores_cluster : IgnoresCluster P
  ignores_cluster = record { cluster = λ w c h. i.surroundings w w.tree c w.faults h }

  create_directories-Keeps :
      (s : DeviceState H.Payload H.Status) (claim : ResourceClaim) (results : List DeviceResult)
      → Keeps P (create_directories H s claim results)
  unfolding create_directories
  create_directories-Keeps s claim [] = pure-Triple tt (λ w h. h)
  create_directories-Keeps s claim (r ∷ rs) =
      bind-Triple _ _ (created (r.driver == s.driver_name)) λ _. create_directories-Keeps s claim rs
    where
      created :
          (mine : Bool)
          → Keeps P (
              if mine
              then (on_error
                    (wrap "failed to create claim directory")
                    (create_claim_directory H claim.name r.request r.device)
                  >> pure tt)
              else pure tt)
      created true =
          bind-Triple
            (on_error (wrap "failed to create claim directory")
              (create_claim_directory H claim.name r.request r.device))
            _
            (on_error-Triple _ (create_claim_directory H claim.name r.request r.device)
              (create_claim_directory-Keeps H ignores_tree claim.name r.request r.device))
            λ _. pure-Triple tt (λ w h. h)
      created false = pure-Triple tt (λ w h. h)

  -- Preparing the devices returns what the computation of the configs returns.
  pub prepare_devices-Triple :
      (s : DeviceState H.Payload H.Status) (order : MapOrder H.Payload) (claim : ResourceClaim)
      → Triple P
          (prepare_devices H s order claim)
          (λ pds w. P w × (compute H s order claim ≡ ok pds))
          P
  unfolding prepare_devices
  prepare_devices-Triple s order claim = with claim.allocation
    where
      with :
          (a : Option Allocation)
          → Triple P
              (prepare_allocated H s order claim a)
              (λ pds w. P w × (compute H s order claim ≡ ok pds))
              P
      with none = panic-Triple (λ w h. h)
      with (some a) =
          bind-Triple (create_directories H s claim a.results) _
            (create_directories-Keeps s claim a.results)
            λ _.
              bind-lift-Triple (compute H s order claim) _
                (λ pds e.
                  bind-Triple (publish H s claim a.results) _
                    (publish-Keeps ignores_cluster s claim a.results)
                    λ _. pure-Triple pds (λ w h. (h, e)))
                (λ w h. h)

  delete_directories-Keeps :
      (s : DeviceState H.Payload H.Status) (c : PreparedClaim) (devices : List Text)
      → Keeps P (delete_directories H s c devices)
  unfolding delete_directories
  delete_directories-Keeps s c [] = pure-Triple tt (λ w h. h)
  delete_directories-Keeps s c (device ∷ devices) =
      bind-Triple (try (delete_claim_directory H c.name (request_of c device))) _
        (try-Triple {Q = λ a. P} (delete_claim_directory H c.name (request_of c device)) (
          weaken-Triple _ (λ w h. h) (λ a w h. h) (λ w h. (h, λ e. h))
            (delete_claim_directory-Keeps H ignores_tree c.name (request_of c device))))
        λ _. delete_directories-Keeps s c devices

  pub unprepare_devices-Keeps :
      (s : DeviceState H.Payload H.Status) (claim_uid : Text) (c : Option Checkpoint)
      → Keeps P (unprepare_devices H s claim_uid c)
  unfolding unprepare_devices
  unprepare_devices-Keeps s claim_uid none = panic-Triple (λ w h. h)
  unprepare_devices-Keeps s claim_uid (some c) = found (find_claim claim_uid c.prepared_claims)
    where
      found : (f : Option PreparedClaim) → Keeps P (delete_found H s f)
      found none = pure-Triple tt (λ w h. h)
      found (some pc) = delete_directories-Keeps s pc pc.devices
