-- ===== src/Compute/Applied.antt =====
-- Where the container edits of a prepared device come from.
use mathlib.Core.List.{Perm}
use dra_example_driver.Common.{
  ◌≡◌, refl, sym, ◌∙◌, inl, inr, ◌⊎◌, true, Option, none, some, List, [], ◌∷◌, Text, All,
  All-append, All-map, arith, Option-cases, map, nat_eq, list_eq,
}
use dra_example_driver.Failure.{
  Outcome, ok, ok-inj, describe, wrap, map_error, map_error-eq-ok, >>=-eq-ok,
}
use dra_example_driver.Api.{ContainerEdits, DeviceResult, Allocation, ResourceClaim}
use dra_example_driver.Profile.{Object, PerDeviceEdits, no_edits, ConfigHandler}
use dra_example_driver.Config.{OpaqueDeviceConfig, get_opaque_device_configs, default_config}
use dra_example_driver.Devices.{PreparedDevice, DeviceState}
use dra_example_driver.Compute.{
  Group, MapOrder, check_admin_access, group_results, apply_configs, merge_edits, prepared,
  collect_devices, compute_device_config, compute_allocated,
}
use dra_example_driver.Compute.Chosen.{
  every, every-perm, and_lem, chosen_for, group_chosen, group_results_chosen,
}
use dra_example_driver.Compute.Groups.{
  compute_device_config_allocated, compute_device_config_unallocated,
}

module _ {P : Type 0} (handler : ConfigHandler P) (driver_name claim_name : Text)
    (configs : List (OpaqueDeviceConfig P)) where
  -- The device has no edits, or those that the handler made for it when it applied a configuration to
  -- results of this driver for whose requests that configuration is the selected one.
  abbrev pub Applied : Option ContainerEdits → Text → Type 0
  Applied edits device =
      (edits ≡ none)
      ⊎ ((c : Option (Object P)) × (rs : List DeviceResult) × (made : PerDeviceEdits)
          × (handler.apply_config claim_name c rs ≡ ok made)
          × (every (chosen_for driver_name configs c) rs ≡ true)
          × (edits ≡ made device))

  merge_edits-Applied :
      (c : Option (Object P)) (rs : List DeviceResult) (made old : PerDeviceEdits) (device : Text)
      → handler.apply_config claim_name c rs ≡ ok made
      → every (chosen_for driver_name configs c) rs ≡ true
      → Applied (old device) device
      → Applied (merge_edits made old device) device
  merge_edits-Applied c rs made old device called chosen before =
      elim (Option-cases (made device)) [
        | inl nothing ↦
            let kept : merge_edits made old device ≡ old device = ground arith in rw kept before
        | inr (edits, something) ↦
            let taken : merge_edits made old device ≡ made device = ground arith in
            inr (c, rs, made, called, chosen, taken)
      ]

  apply_configs-Applied :
      (gs : List (Group P)) (old edits : PerDeviceEdits) (device : Text)
      → apply_configs handler claim_name gs old ≡ ok edits
      → every (group_chosen driver_name configs) gs ≡ true
      → Applied (old device) device
      → Applied (edits device) device
  unfolding apply_configs
  apply_configs-Applied [] old edits device e _ before =
      let same : old ≡ edits = ok-inj e in rw (← same) before
  apply_configs-Applied ((c, rs) ∷ gs) old edits device e h before =
      let (made, called, rest) =
        >>=-eq-ok (map_error (wrap "error applying config") (handler.apply_config claim_name c rs))
          _ e in
      let (chosen, others) = and_lem _ (every (group_chosen driver_name configs) gs) h in
      apply_configs-Applied gs (merge_edits made old) edits device rest others
        (merge_edits-Applied c rs made old device (map_error-eq-ok _ _ called) chosen before)

module _ {P S : Type 0} (decode : Text → Outcome P) (qualified_name : Text → Text → Text → Text)
    (s : DeviceState P S) (order : MapOrder P) (claim : ResourceClaim) where
  -- What is known of the edits of a prepared device, given the configurations of its claim.
  abbrev pub HasAppliedEdits : List (OpaqueDeviceConfig P) → PreparedDevice → Type 0
  HasAppliedEdits configs pd =
      Applied s.config_handler s.driver_name claim.name (default_config ∷ configs)
        pd.container_edits pd.device.device_name

  collect_devices-All :
      (configs : List (OpaqueDeviceConfig P)) (edits : PerDeviceEdits) (gs : List (Group P))
      → ((device : Text)
          → Applied s.config_handler s.driver_name claim.name
              (default_config ∷ configs)
              (edits device)
              device)
      → All
          (HasAppliedEdits configs)
          (collect_devices qualified_name s claim (check_admin_access claim) edits gs)
  unfolding collect_devices
  collect_devices-All configs edits [] h = tt
  collect_devices-All configs edits ((c, rs) ∷ gs) h =
      All-append (HasAppliedEdits configs)
        (map (prepared qualified_name s claim (check_admin_access claim) edits) rs) _
        (All-map (HasAppliedEdits configs)
          (prepared qualified_name s claim (check_admin_access claim) edits) rs (λ r. h r.device))
        (collect_devices-All configs edits gs h)

  compute_allocated_applied :
      (a : Allocation) (pds : List PreparedDevice)
      → ((gs : List (Group P)) → Perm (order.applied gs) gs)
      → compute_allocated decode qualified_name s order claim a ≡ ok pds
      → (configs : List (OpaqueDeviceConfig P)) × (get_opaque_device_configs decode s.driver_name
            a.config
          ≡ ok configs)
        × All (HasAppliedEdits configs) pds
  compute_allocated_applied a pds perms h =
      let (configs, decoded, h₁) =
        >>=-eq-ok
          (map_error (describe "error getting opaque device configs")
            (get_opaque_device_configs decode s.driver_name a.config))
          _ h in
      let (gs, grouped, h₂) =
        >>=-eq-ok
          (group_results s.driver_name s.allocatable (default_config ∷ configs) a.results []) _
          h₁ in
      let (edits, applied, done) =
        >>=-eq-ok (apply_configs s.config_handler claim.name (order.applied gs) no_edits) _ h₂ in
      let chosen =
        every-perm (group_chosen s.driver_name (default_config ∷ configs)) (perms gs)
        ∙ group_results_chosen s.driver_name s.allocatable (default_config ∷ configs) a.results []
            gs grouped refl in
      (
        configs,
        map_error-eq-ok _ _ decoded,
        rw (← ok-inj done) (
            collect_devices-All configs edits (order.collected gs) λ device.
              apply_configs-Applied s.config_handler s.driver_name claim.name
                (default_config ∷ configs) (order.applied gs) no_edits edits device applied chosen
                (inl refl)),
      )

  -- If devices are returned, then the claim is allocated, its configurations were decoded, and each
  -- device has no container edits or those that the profile made for it when it applied one of the
  -- configurations, or the default one, to results of this driver for whose requests that
  -- configuration is the selected one; whatever order Go ranges over the map in.
  pub compute_device_config_applied :
      (pds : List PreparedDevice)
      → ((gs : List (Group P)) → Perm (order.applied gs) gs)
      → compute_device_config decode qualified_name s order claim ≡ ok pds
      → (a : Allocation) × (configs : List (OpaqueDeviceConfig P)) × (claim.allocation ≡ some a)
        × (get_opaque_device_configs decode s.driver_name a.config ≡ ok configs)
        × All (HasAppliedEdits configs) pds
  compute_device_config_applied pds perms h = elim (Option-cases claim.allocation) [
    | inl missing ↦ absurd (
        ground
          (arith, compute_device_config_unallocated decode qualified_name s order claim missing))
    | inr (a, allocated) ↦
        let (configs, decoded, from) = compute_allocated_applied a pds perms (
          sym (compute_device_config_allocated decode qualified_name s order claim a allocated)
          ∙ h) in
        (a, configs, allocated, decoded, from)
  ]
