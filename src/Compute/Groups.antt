-- ===== src/Compute/Groups.antt =====
-- The prepared devices of a claim are its allocation results for this driver, in some order.
use mathlib.Core.Logic.{∥∥₁_elim}
use mathlib.Core.List.{Perm, Permᴰ, Perm-prop, perm_append_comm}
use mathlib.Core.List.Perm
use mathlib.Core.Path.{subst}
use dra_example_driver.Common.{
  ◌≡◌, ◌≢◌, refl, sym, ◌∙◌, inl, inr, Bool, Option, none, some, List, [], ◌∷◌, ◌++◌, append-nil,
  append_assoc, map, map-append, Text, ◌==◌, All, keep, keep-append, All-append, arith, Bool-cases,
  Option-cases, nat_eq, list_eq,
}
use dra_example_driver.Common.Dict.{Dict, lookup}
use dra_example_driver.Failure.{Outcome, ok, err, failure, describe, map_error, >>=-eq-ok}
use dra_example_driver.Api.{DeviceResult, Allocation, ResourceClaim}
use dra_example_driver.Profile.{Object, PerDeviceEdits, no_edits}
use dra_example_driver.Config.{OpaqueDeviceConfig, get_opaque_device_configs, default_config}
use dra_example_driver.Config.Precedence.{select_sound}
use dra_example_driver.Devices.{PreparedDevice, DeviceState, PoolDevice}
use dra_example_driver.Compute.Described.{described, map-prepared-described}
use dra_example_driver.Compute.{
  Group, MapOrder, check_admin_access, same_object, add_result, place, group_results, apply_configs,
  prepared, collect_devices, compute_device_config, compute_allocated,
}

-- The results of this driver.
abbrev pub own_results : Text → List DeviceResult → List DeviceResult
own_results driver_name = keep (λ r. r.driver == driver_name)

regroup {ℓ} : {A : Type ℓ} (xs ys zs : List A) → Perm (xs ++ (ys ++ zs)) (ys ++ (xs ++ zs))
regroup xs ys zs =
    rw (← append_assoc xs ys zs, ← append_assoc ys xs zs)
      (Perm.append_right zs (perm_append_comm xs ys))

module _ {P : Type 0} where
  -- The results in the groups.
  abbrev pub flat : List (Group P) → List DeviceResult
  flat [] = []
  flat ((c, rs) ∷ groups) = rs ++ flat groups

  flat-Permᴰ : {gs hs : List (Group P)} → Permᴰ gs hs → Perm (flat gs) (flat hs)
  flat-Permᴰ Permᴰ.nil = Perm.refl []
  flat-Permᴰ (Permᴰ.cons {b} e p) = rw e (Perm.append_left b.1 (flat-Permᴰ p))
  flat-Permᴰ (Permᴰ.swap {a} {b} {l} e e') = rw (← e, ← e') (regroup a.1 b.1 (flat l))
  flat-Permᴰ (Permᴰ.trans p q) = Perm.trans (flat-Permᴰ p) (flat-Permᴰ q)

  pub flat-perm : {gs hs : List (Group P)} → Perm gs hs → Perm (flat gs) (flat hs)
  flat-perm p = ∥∥₁_elim p Perm-prop flat-Permᴰ

  flat-add_result :
      (c : Option (Object P)) (r : DeviceResult) (gs : List (Group P))
      → Perm (flat (add_result c r gs)) (flat gs ++ r ∷ [])
  unfolding add_result
  flat-add_result c r [] = Perm.refl _
  flat-add_result c r ((d, rs) ∷ gs) = elim (Bool-cases (same_object c d)) [
    | inl same ↦
        rw (same, append_assoc rs (r ∷ []) (flat gs), append_assoc rs (flat gs) (r ∷ []))
          (Perm.append_left rs (perm_append_comm (r ∷ []) (flat gs)))
    | inr other ↦
        rw (other, append_assoc rs (flat gs) (r ∷ []))
          (Perm.append_left rs (flat-add_result c r gs))
  ]

  -- A result of this driver for a known device is added; others leave the groups alone.
  place_sound :
      (driver_name : Text) (allocatable : Dict Text PoolDevice) (cs : List (OpaqueDeviceConfig P))
      (r : DeviceResult) (gs gs' : List (Group P))
      → place driver_name allocatable (default_config ∷ cs) r gs ≡ ok gs'
      → Perm (flat gs') (flat gs ++ own_results driver_name (r ∷ []))
        × All (λ q. lookup q.device allocatable ≢ none) (own_results driver_name (r ∷ []))
  place_sound driver_name allocatable cs r gs gs' h = elim (Bool-cases (r.driver == driver_name)) [
    | inr foreign ↦
        let same : gs' ≡ gs = ground arith in
        rw (foreign, same, append-nil (flat gs)) (Perm.refl (flat gs), tt)
    | inl own ↦ elim (Option-cases (lookup r.device allocatable)) [
      | inl missing ↦ absurd (ground arith)
      | inr (device, found) ↦
          let (c, _, _, chosen, _, _, _) = select_sound r.request cs in
          let added : gs' ≡ add_result c.config r gs = ground arith in
          rw (own, added) (flat-add_result c.config r gs, ((λ e. cc), tt))
    ]
  ]

  pub group_results_sound :
      (driver_name : Text) (allocatable : Dict Text PoolDevice) (cs : List (OpaqueDeviceConfig P))
      (rs : List DeviceResult) (gs gs' : List (Group P))
      → group_results driver_name allocatable (default_config ∷ cs) rs gs ≡ ok gs'
      → Perm (flat gs') (flat gs ++ own_results driver_name rs)
        × All (λ q. lookup q.device allocatable ≢ none) (own_results driver_name rs)
  unfolding group_results
  group_results_sound driver_name allocatable cs [] gs gs' h =
      let same : gs' ≡ gs = cc in rw (same, append-nil (flat gs)) (Perm.refl (flat gs), tt)
  group_results_sound driver_name allocatable cs (r ∷ rs) gs gs' h =
      let (gs₁, placed, rest) =
        >>=-eq-ok (place driver_name allocatable (default_config ∷ cs) r gs) _ h in
      let (p, known) = place_sound driver_name allocatable cs r gs gs₁ placed in
      let (q, knowns) = group_results_sound driver_name allocatable cs rs gs₁ gs' rest in
      rw (keep-append (λ x. x.driver == driver_name) (r ∷ []) rs) (
        Perm.trans q (
            rw (← append_assoc (flat gs) (own_results driver_name (r ∷ [])) _)
              (Perm.append_right (own_results driver_name rs) p)),
        All-append _ (own_results driver_name (r ∷ [])) _ known knowns,
      )

module _ {P S : Type 0} (qualified_name : Text → Text → Text → Text) (s : DeviceState P S) where
  pub collect_devices-map :
      (claim : ResourceClaim) (admin : Bool) (edits : PerDeviceEdits) (gs : List (Group P))
      → collect_devices qualified_name s claim admin edits gs
        ≡ map (prepared qualified_name s claim admin edits) (flat gs)
  unfolding collect_devices
  collect_devices-map claim admin edits [] = refl
  collect_devices-map claim admin edits ((c, rs) ∷ gs) =
      rw (collect_devices-map claim admin edits gs)
        (sym (map-append (prepared qualified_name s claim admin edits) rs (flat gs)))

module _ {P S : Type 0} (decode : Text → Outcome P) (qualified_name : Text → Text → Text → Text)
    (s : DeviceState P S) (order : MapOrder P) (claim : ResourceClaim) where
  -- What is known of a claim whose devices have been computed.
  abbrev pub Computed : List PreparedDevice → Type 0
  Computed pds =
      (a : Allocation) × (edits : PerDeviceEdits) × (claim.allocation ≡ some a)
      × Perm pds (
          map (described qualified_name s claim a.results edits)
            (own_results s.driver_name a.results))
      × All (λ r. lookup r.device s.allocatable ≢ none) (own_results s.driver_name a.results)

  pub compute_device_config_allocated :
      (a : Allocation)
      → claim.allocation ≡ some a
      → compute_device_config decode qualified_name s order claim
        ≡ compute_allocated decode qualified_name s order claim a
  unfolding compute_device_config
  compute_device_config_allocated a allocated = ground arith

  pub compute_device_config_unallocated :
      claim.allocation ≡ none
      → compute_device_config decode qualified_name s order claim
        ≡ err (failure "claim not yet allocated")
  unfolding compute_device_config
  compute_device_config_unallocated missing = ground arith

  compute_allocated_sound :
      (a : Allocation) (pds : List PreparedDevice)
      → ((gs : List (Group P)) → Perm (order.collected gs) gs)
      → compute_allocated decode qualified_name s order claim a ≡ ok pds
      → (edits : PerDeviceEdits) × Perm pds (
          map
            (prepared qualified_name s claim (check_admin_access claim) edits)
            (own_results s.driver_name a.results))
        × All (λ r. lookup r.device s.allocatable ≢ none) (own_results s.driver_name a.results)
  compute_allocated_sound a pds perms h =
      let (configs, decoded, h₁) =
        >>=-eq-ok
          (map_error (describe "error getting opaque device configs")
            (get_opaque_device_configs decode s.driver_name a.config))
          _ h in
      let (gs, grouped, h₂) =
        >>=-eq-ok
          (group_results s.driver_name s.allocatable (default_config ∷ configs) a.results []) _
          h₁ in
      let (edits, applied, done) =
        >>=-eq-ok (apply_configs s.config_handler claim.name (order.applied gs) no_edits) _ h₂ in
      let (p, known) =
        group_results_sound s.driver_name s.allocatable configs a.results [] gs grouped in
      let built : pds
          ≡ map (prepared qualified_name s claim (check_admin_access claim) edits)
              (flat (order.collected gs)) =
        cc (
          collect_devices-map qualified_name s claim (check_admin_access claim) edits
            (order.collected gs)) in
      (
        edits,
        rw built (
            Perm.map (prepared qualified_name s claim (check_admin_access claim) edits)
              (Perm.trans (flat-perm (perms gs)) p)),
        known,
      )

  -- If devices are returned, then the claim is allocated, its results for this driver name
  -- allocatable devices, and the list holds one prepared device for each of them and no other,
  -- with the request, pool and device of the result, the IDs of the CDI devices common and
  -- `<claim UID>-<device>`, and admin access if any result of the claim has it; whatever order Go
  -- ranges over the map in.
  pub compute_device_config_sound :
      (pds : List PreparedDevice)
      → ((gs : List (Group P)) → Perm (order.collected gs) gs)
      → compute_device_config decode qualified_name s order claim ≡ ok pds
      → Computed pds
  compute_device_config_sound pds perms h = elim (Option-cases claim.allocation) [
    | inl missing ↦ absurd (ground (arith, compute_device_config_unallocated missing))
    | inr (a, allocated) ↦
        let (edits, p, known) =
          compute_allocated_sound a pds perms
            (sym (compute_device_config_allocated a allocated) ∙ h) in
        let same =
          map-prepared-described qualified_name s claim a edits
            (own_results s.driver_name a.results) allocated in
        (a, edits, allocated, subst (Perm pds) same p, known)
  ]
