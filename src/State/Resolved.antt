-- ===== src/State/Resolved.antt =====
-- The CDI device IDs that `Prepare` returns, and the CDI spec that it writes.
use dra_example_driver.Common.{
  ◌≡◌, refl, sym, ◌∙◌, ap, inl, inr, Bool, true, false, Option-cases, List, [], ◌∷◌, ◌++◌,
  append-nil, append_assoc, Text, codes, contains, All, All-append, All-map, All-weaken, map, arith,
  nat_eq, list_eq,
}
use mathlib.Core.Path.{subst}
use mathlib.Core.Bool.{true≢false}
use dra_example_driver.Failure.{ok, ok-inj, describe, map_error, >>=-eq-ok}
use dra_example_driver.Api.{ResourceClaim, Allocation, Device, Spec, CdiDevice}
use dra_example_driver.Cdi.Names.{kind, vendor, get_claim_devices}
use dra_example_driver.Cdi.ClaimSpec.{claim_spec, spec_name, cdi_device, append_cdi_devices}
use dra_example_driver.Checkpoint.{Checkpoint, has_claim}
use dra_example_driver.Checkpoint.Claims.{==-refl}
use dra_example_driver.CheckpointFile.Read.{stored}
use dra_example_driver.Compute.{
  Group, MapOrder, check_admin_access, group_results, apply_configs, prepared, collect_devices,
  compute_allocated,
}
use dra_example_driver.Compute.Groups.{
  compute_device_config_allocated, compute_device_config_unallocated,
}
use dra_example_driver.Config.{get_opaque_device_configs, default_config}
use dra_example_driver.Devices.{DeviceState, PreparedDevice, get_devices-map}
use dra_example_driver.Profile.{PerDeviceEdits, no_edits}
use dra_example_driver.World.{Host, World}
use dra_example_driver.State.Defs.{compute, prepare}
use dra_example_driver.State.Prepare.{prepare_sound}

contains-map :
    {A : Type 0} (f : A → Text) (xs : List A) → All (λ x. contains (map f xs) (f x) ≡ true) xs
contains-map f [] = tt
contains-map f (x ∷ xs) =
    (ground (arith, ==-refl (f x)), All-weaken (λ y h. ground arith) xs (contains-map f xs))

module _ (H : Host) (s : DeviceState H.Payload H.Status) (claim : ResourceClaim) where
  append_cdi_devices-map :
      (pds : List PreparedDevice) (devices : List CdiDevice)
      → append_cdi_devices H s.cdi claim.uid pds devices
        ≡ devices ++ map (cdi_device H s.cdi claim.uid) pds
  unfolding append_cdi_devices
  append_cdi_devices-map [] devices = sym (append-nil devices)
  append_cdi_devices-map (pd ∷ pds) devices =
      append_cdi_devices-map pds (devices ++ cdi_device H s.cdi claim.uid pd ∷ [])
      ∙ append_assoc devices (cdi_device H s.cdi claim.uid pd ∷ []) _

  abbrev ids : Text → List Text
  ids device = get_claim_devices H.qualified_name s.cdi claim.uid (device ∷ [])

  -- The IDs of the device are those of the common device and of its own.
  abbrev HasIds : PreparedDevice → Type 0
  HasIds pd = pd.device.cdi_device_ids ≡ ids pd.device.device_name

  collect_devices-HasIds :
      (admin : Bool) (edits : PerDeviceEdits) (gs : List (Group H.Payload))
      → All HasIds (collect_devices H.qualified_name s claim admin edits gs)
  unfolding collect_devices
  collect_devices-HasIds admin edits [] = tt
  collect_devices-HasIds admin edits ((c, rs) ∷ gs) =
      All-append HasIds (map (prepared H.qualified_name s claim admin edits) rs) _
        (All-map HasIds (prepared H.qualified_name s claim admin edits) rs (λ r. refl))
        (collect_devices-HasIds admin edits gs)

  module _ (order : MapOrder H.Payload) where
    compute_allocated-HasIds :
        (a : Allocation) (pds : List PreparedDevice)
        → compute_allocated H.decode_config H.qualified_name s order claim a ≡ ok pds
        → All HasIds pds
    compute_allocated-HasIds a pds h =
        let (configs, decoded, h₁) =
          >>=-eq-ok
            (map_error (describe "error getting opaque device configs")
              (get_opaque_device_configs H.decode_config s.driver_name a.config))
            _ h in
        let (gs, grouped, h₂) =
          >>=-eq-ok
            (group_results s.driver_name s.allocatable (default_config ∷ configs) a.results []) _
            h₁ in
        let (edits, applied, done) =
          >>=-eq-ok (apply_configs s.config_handler claim.name (order.applied gs) no_edits) _ h₂ in
        subst (All HasIds) (ok-inj done)
          (collect_devices-HasIds (check_admin_access claim) edits (order.collected gs))

    compute-HasIds : (pds : List PreparedDevice) → compute H s order claim ≡ ok pds → All HasIds pds
    compute-HasIds pds h = elim (Option-cases claim.allocation) [
      | inl missing ↦ absurd (
          ground (
            arith,
            compute_device_config_unallocated H.decode_config H.qualified_name s order claim
                missing,
          ))
      | inr (a, allocated) ↦ compute_allocated-HasIds a pds (
          sym (
            compute_device_config_allocated H.decode_config H.qualified_name s order claim a
              allocated)
          ∙ h)
    ]

  -- The name of the device in the spec of the claim.
  abbrev pub own_name : Text → Text
  own_name device = claim.uid ++ (codes "-" ++ device)

  abbrev pub id_of : Text → Text
  id_of name = H.qualified_name (codes "k8s." ++ s.cdi.driver_name) s.cdi.cdi_class name

  -- The IDs of the device are those of the device common and of its own device, and the spec, whose kind
  -- is the vendor, a slash and the class, has that device.
  abbrev pub Resolves : Spec → Device → Type 0
  Resolves spec d =
      (d.cdi_device_ids ≡ id_of (codes "common") ∷ id_of (own_name d.device_name) ∷ [])
      × (spec.kind ≡ (codes "k8s." ++ s.cdi.driver_name) ++ (codes "/" ++ s.cdi.cdi_class))
      × (contains (map (λ d'. d'.name) spec.devices) (own_name d.device_name) ≡ true)

  abbrev prepared_name : PreparedDevice → Text
  prepared_name pd = own_name pd.device.device_name

  names_lem :
      (pds : List PreparedDevice)
      → map (λ d. d.name) (map (cdi_device H s.cdi claim.uid) pds) ≡ map prepared_name pds
  names_lem [] = refl
  names_lem (pd ∷ pds) = ap (λ names. prepared_name pd ∷ names) (names_lem pds)

  spec_names :
      (pds : List PreparedDevice)
      → map (λ d. d.name) (claim_spec H s.cdi claim.uid pds).devices ≡ map prepared_name pds
  unfolding claim_spec
  spec_names pds = ap (map (λ d. d.name)) (append_cdi_devices-map pds []) ∙ names_lem pds

  devices-Resolves :
      (spec : Spec) (pds : List PreparedDevice)
      → spec.kind ≡ (codes "k8s." ++ s.cdi.driver_name) ++ (codes "/" ++ s.cdi.cdi_class)
      → All HasIds pds
      → All (λ pd. contains (map (λ d. d.name) spec.devices) (prepared_name pd) ≡ true) pds
      → All (Resolves spec) (map (λ pd. pd.device) pds)
  unfolding get_claim_devices vendor
  devices-Resolves spec [] same _ _ = tt
  devices-Resolves spec (pd ∷ pds) same (h, hs) (l, ls) =
      ((h, same, l), devices-Resolves spec pds same hs ls)

  -- If `Prepare` returns devices for a claim that is not in the checkpoint, then it has written a CDI
  -- spec under the name of the claim, of the kind `k8s.<driver>/<class>`, and each device that the
  -- kubelet is given has two CDI device IDs, both of the vendor `k8s.<driver>` and the class: that of the
  -- device common, and that of `<claim UID>-<device>`, which is a device of that spec.
  pub prepare-Resolves :
      (order : MapOrder H.Payload) (w w' : World H) (c : Checkpoint) (ds : List Device)
      → stored H w.checkpoint_file ≡ ok c
      → has_claim claim.uid c ≡ false
      → prepare H s order claim w ≡ (ok ds, w')
      → (spec : Spec) × (H.write_spec spec (spec_name H s.cdi claim.uid) w.cache ≡ ok w'.cache)
        × All (Resolves spec) ds
  unfolding claim_spec kind vendor
  prepare-Resolves order w w' c ds at new e =
      let (c₁, pds, at₁, computed, devices, cases) = prepare_sound H s order claim w w' ds e in
      let same : c₁ ≡ c = ok-inj (sym at₁ ∙ at) in
      elim cases [
        | inl (has, _, _) ↦ absurd (true≢false (sym has ∙ ap (has_claim claim.uid) same ∙ new))
        | inr (_, (_, (version, _, written), _)) ↦
            let spec = record (claim_spec H s.cdi claim.uid pds) { version = version } in
            (
              spec,
              written,
              subst (All (Resolves spec)) (sym (devices ∙ get_devices-map pds)) (
                  devices-Resolves spec pds refl (compute-HasIds order pds computed) (
                    subst (λ names. All (λ pd. contains names (prepared_name pd) ≡ true) pds)
                      (sym (spec_names pds)) (contains-map prepared_name pds))),
            )
      ]
