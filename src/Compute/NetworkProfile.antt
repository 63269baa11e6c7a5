-- ===== src/Compute/NetworkProfile.antt =====
-- The devices of a claim with the network profile, whatever order Go ranges over its maps in.
use mathlib.Core.List.Perm
use mathlib.Core.List.{Perm}
use mathlib.Core.Path.{subst}
use dra_example_driver.Common.{
  ◌≡◌, sym, ◌∙◌, ap, true, none, some, List, [], ◌∷◌, Text, All, All-weaken, map, if◌then◌else◌,
  nat_eq, list_eq,
}
use dra_example_driver.Failure.{Outcome, ok, describe, map_error, >>=-eq-ok}
use dra_example_driver.Api.{Allocation, ResourceClaim}
use dra_example_driver.Checkpoint.Claims.{==-refl}
use dra_example_driver.Compute.{
  Group, MapOrder, check_admin_access, group_results, apply_configs, prepared,
  compute_device_config, compute_allocated,
}
use dra_example_driver.Compute.Chosen.{every, every-perm}
use dra_example_driver.Compute.Groups.{
  flat, flat-perm, own_results, group_results_sound, collect_devices-map,
  compute_device_config_allocated,
}
use dra_example_driver.Config.{get_opaque_device_configs, default_config}
use dra_example_driver.Devices.{PreparedDevice, DeviceState}
use dra_example_driver.Profile.{no_edits}
use dra_example_driver.Compute.Described.{described, map-prepared-described}
use dra_example_driver.Compute.Routed.{
  routed, routed_edits, unnamed, every-All, apply_configs-made, map-prepared, map-described,
  each_named,
}
use dra_example_driver.Paths.{show_path}
use dra_example_driver.ClaimDir.{claim_dir}
use dra_example_driver.ClaimDir.SamePath.{edits_at}
use dra_example_driver.Profile.Network.{network_profile}

module _ {P S : Type 0} (decode : Text → Outcome P) (qualified_name : Text → Text → Text → Text)
    (s : DeviceState P S) (order : MapOrder P) (claim : ResourceClaim) (route : Text → Text) where
  compute_allocated_network :
      (a : Allocation) (pds : List PreparedDevice)
      → ((gs : List (Group P)) → Perm (order.applied gs) gs)
      → ((gs : List (Group P)) → Perm (order.collected gs) gs)
      → s.config_handler ≡ network_profile
      → All (λ r. r.request ≡ route r.device) (own_results s.driver_name a.results)
      → compute_allocated decode qualified_name s order claim a ≡ ok pds
      → Perm pds (
          map
            (prepared qualified_name s claim
              (check_admin_access claim)
              (λ device. some (routed_edits claim.name route device)))
            (own_results s.driver_name a.results))
  compute_allocated_network a pds applied_perm collected_perm network routes h =
      let own = own_results s.driver_name a.results in
      let (configs, decoded, h₁) =
        >>=-eq-ok
          (map_error (describe "error getting opaque device configs")
            (get_opaque_device_configs decode s.driver_name a.config))
          _ h in
      let (gs, grouped, h₂) =
        >>=-eq-ok
          (group_results s.driver_name s.allocatable (default_config ∷ configs) a.results []) _
          h₁ in
      let (edits, applied, done) =
        >>=-eq-ok (apply_configs s.config_handler claim.name (order.applied gs) no_edits) _ h₂ in
      let (p, _) =
        group_results_sound s.driver_name s.allocatable configs a.results [] gs grouped in
      let same : Perm (flat (order.applied gs)) own = Perm.trans (flat-perm (applied_perm gs)) p in
      let all_routed : every (routed claim.name route) (flat (order.applied gs)) ≡ true =
        every-perm (routed claim.name route) same
        ∙ every-All (routed claim.name route) own
            (All-weaken (λ r e. rw e (==-refl (route r.device))) own routes) in
      let by_network : apply_configs network_profile claim.name (order.applied gs) no_edits
          ≡ ok edits =
        subst (λ f. apply_configs f claim.name (order.applied gs) no_edits ≡ ok edits) network
          applied in
      let made_all : All (λ r. edits r.device ≡ some (routed_edits claim.name route r.device)) own =
        All-weaken
          (λ r there.
            apply_configs-made claim.name route (order.applied gs) no_edits edits r.device
              all_routed by_network
            ∙ ap (λ b. if b then none else some (routed_edits claim.name route r.device))
                (every-perm (unnamed claim.name route r.device) same ∙ there))
          own (each_named claim.name route own) in
      let built : pds
          ≡ map (prepared qualified_name s claim (check_admin_access claim) edits)
              (flat (order.collected gs)) =
        cc (
          collect_devices-map qualified_name s claim (check_admin_access claim) edits
            (order.collected gs)) in
      subst (Perm pds)
        (map-prepared claim.name route qualified_name s claim (check_admin_access claim) edits own
          made_all)
        (subst
          (λ x. Perm x (map (prepared qualified_name s claim (check_admin_access claim) edits) own))
          (sym built)
          (Perm.map (prepared qualified_name s claim (check_admin_access claim) edits)
            (Perm.trans (flat-perm (collected_perm gs)) p)))

  -- With the network profile, if each device that is allocated to the claim from this driver is
  -- allocated for one request only, then the devices that are computed are those of the results of
  -- this driver, up to their order: each with its request, pool and CDI device IDs, admin access if any
  -- result of the claim has it, the environment that names the device, the request and the directory of
  -- the claim and the request, and the mount of that directory alone; whatever the configs are, and
  -- whatever order Go ranges over its maps in.
  pub compute_network :
      (a : Allocation) (pds : List PreparedDevice)
      → ((gs : List (Group P)) → Perm (order.applied gs) gs)
      → ((gs : List (Group P)) → Perm (order.collected gs) gs)
      → s.config_handler ≡ network_profile
      → claim.allocation ≡ some a
      → All (λ r. r.request ≡ route r.device) (own_results s.driver_name a.results)
      → compute_device_config decode qualified_name s order claim ≡ ok pds
      → Perm pds (
          map
            (λ r.
              described qualified_name s claim a.results
                (λ device.
                  some (edits_at (show_path (claim_dir claim.name r.request)) device r.request))
                r)
            (own_results s.driver_name a.results))
  compute_network a pds applied_perm collected_perm network allocated routes h =
      let own = own_results s.driver_name a.results in
      subst (Perm pds)
        (map-prepared-described qualified_name s claim a
            (λ device. some (routed_edits claim.name route device)) own allocated
          ∙ map-described claim.name route qualified_name s claim a.results own routes)
        (compute_allocated_network a pds applied_perm collected_perm network routes (
          sym (compute_device_config_allocated decode qualified_name s order claim a allocated)
          ∙ h))
