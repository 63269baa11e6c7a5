-- ===== src/Compute/Routed.antt =====
-- The edits of the network profile for devices that are each allocated for one request.
use dra_example_driver.Common.{
  ◌≡◌, refl, sym, ◌∙◌, ap, inl, inr, ◌&&◌, not, Bool, true, false, Bool-cases, Option, none, some,
  List, [], ◌∷◌, ◌++◌, Text, ◌==◌, All, All-weaken, map, if◌then◌else◌, arith, nat_eq, list_eq,
}
use dra_example_driver.Failure.{ok, ok-inj}
use dra_example_driver.Api.{ContainerEdits, DeviceResult, ResourceClaim}
use dra_example_driver.Checkpoint.Claims.{==-eq, ==-refl}
use dra_example_driver.Compute.{Group, apply_configs, merge_edits, prepared}
use dra_example_driver.Compute.Chosen.{every}
use dra_example_driver.Compute.Groups.{flat}
use dra_example_driver.Devices.{DeviceState}
use dra_example_driver.Profile.{PerDeviceEdits, no_edits, set_edits}
use dra_example_driver.Paths.{show_path}
use dra_example_driver.ClaimDir.{claim_dir}
use dra_example_driver.ClaimDir.SamePath.{edits_at, device_edits-edits_at}
use dra_example_driver.Compute.Described.{described}
use dra_example_driver.Profile.Network.{device_edits, edits_of, apply_config, network_profile}

every-append :
    {A : Type 0} (p : A → Bool) (xs ys : List A) → every p (xs ++ ys) ≡ (every p xs && every p ys)
every-append p [] ys = refl
every-append p (x ∷ xs) ys = ground (arith, every-append p xs ys)

pub every-All :
    {A : Type 0} (p : A → Bool) (xs : List A) → All (λ x. p x ≡ true) xs → every p xs ≡ true
every-All p [] _ = refl
every-All p (x ∷ xs) (h, hs) = ground (arith, every-All p xs hs)

layer_lem :
    (b : Bool) (old : Option ContainerEdits) (edits : ContainerEdits)
    → (elim (if b then none else some edits) as (λ _. Option ContainerEdits) [
      | none ↦ old
      | some made ↦ some made
    ])
      ≡ (if b then old else some edits)
layer_lem true old edits = refl
layer_lem false old edits = refl

both_lem :
    (b c : Bool) (merged old edits : Option ContainerEdits)
    → merged ≡ (if b then old else edits)
    → (if c then merged else edits) ≡ (if b && c then old else edits)
both_lem true true merged old edits e = e
both_lem true false merged old edits e = refl
both_lem false true merged old edits e = e
both_lem false false merged old edits e = refl

module _ (claim_name : Text) (route : Text → Text) where
  -- The edits for a device and the request that the device is routed to.
  abbrev pub routed_edits : Text → ContainerEdits
  routed_edits device = device_edits claim_name (record {
    request = route device;
    driver = [];
    pool = [];
    device = device;
    admin_access = none;
  })

  abbrev pub routed : DeviceResult → Bool
  routed r = r.request == route r.device

  abbrev pub unnamed : Text → DeviceResult → Bool
  unnamed device r = not (device == r.device)

  -- The edits of a device once they are made for the results, from those before.
  abbrev pub made : List DeviceResult → PerDeviceEdits → PerDeviceEdits
  made rs old device = if every (unnamed device) rs then old device else some (routed_edits device)

  device_edits-routed :
      (r : DeviceResult) → routed r ≡ true → device_edits claim_name r ≡ routed_edits r.device
  unfolding device_edits
  device_edits-routed r h =
      ap (λ q. device_edits claim_name (record r { request = q }))
        (==-eq r.request (route r.device) h)

  edits_of-made :
      (rs : List DeviceResult) (old : PerDeviceEdits) (device : Text)
      → every routed rs ≡ true
      → edits_of claim_name rs old device ≡ made rs old device
  unfolding edits_of
  edits_of-made [] old device h = refl
  edits_of-made (r ∷ rs) old device h =
      let here : routed r ≡ true = ground arith in
      let later : every routed rs ≡ true = ground arith in
      let rest =
        edits_of-made rs (set_edits r.device (device_edits claim_name r) old) device later in
      elim (Bool-cases (device == r.device)) [
        | inl same ↦
            let own : some (device_edits claim_name r) ≡ some (routed_edits device) =
              ap some
                (device_edits-routed r here ∙ ap routed_edits (sym (==-eq device r.device same))) in
            elim (Bool-cases (every (unnamed device) rs)) [
              | inl absent ↦ rest ∙ rw (same, absent) own
              | inr there ↦ rest ∙ rw (same, there) refl
            ]
        | inr other ↦ rest ∙ rw other refl
      ]

  module _ {P : Type 0} where
    pub apply_configs-made :
        (gs : List (Group P)) (old edits : PerDeviceEdits) (device : Text)
        → every routed (flat gs) ≡ true
        → apply_configs network_profile claim_name gs old ≡ ok edits
        → edits device ≡ made (flat gs) old device
    unfolding apply_configs network_profile apply_config
    apply_configs-made [] old edits device h e = ap (λ m. m device) (sym (ok-inj e))
    apply_configs-made ((c, rs) ∷ gs) old edits device h e =
        let both : (every routed rs && every routed (flat gs)) ≡ true =
          sym (every-append routed rs (flat gs)) ∙ h in
        let here : every routed rs ≡ true = ground arith in
        let later : every routed (flat gs) ≡ true = ground arith in
        let rest =
          apply_configs-made gs (merge_edits (edits_of claim_name rs no_edits) old) edits device
            later e in
        let merged : merge_edits (edits_of claim_name rs no_edits) old device
            ≡ (if every (unnamed device) rs then old device else some (routed_edits device)) =
          ap (λ new. elim new [ none ↦ old device | some made ↦ some made ])
            (edits_of-made rs no_edits device here)
          ∙ layer_lem (every (unnamed device) rs) (old device) (routed_edits device) in
        rest
        ∙ both_lem (every (unnamed device) rs) (every (unnamed device) (flat gs)) _ (old device)
            (some (routed_edits device)) merged
        ∙ ap (λ b. if b then old device else some (routed_edits device))
            (sym (every-append (unnamed device) rs (flat gs)))

  pub map-prepared :
      {P S : Type 0} (qualified_name : Text → Text → Text → Text) (s : DeviceState P S)
      (claim : ResourceClaim) (admin : Bool) (edits : PerDeviceEdits) (rs : List DeviceResult)
      → All (λ r. edits r.device ≡ some (routed_edits r.device)) rs
      → map (prepared qualified_name s claim admin edits) rs
        ≡ map (prepared qualified_name s claim admin (λ device. some (routed_edits device))) rs
  map-prepared qualified_name s claim admin edits [] _ = refl
  map-prepared qualified_name s claim admin edits (r ∷ rs) (h, hs) = λ i.
      record (prepared qualified_name s claim admin edits r) { container_edits = h i }
      ∷ map-prepared qualified_name s claim admin edits rs hs i

  pub each_named : (rs : List DeviceResult) → All (λ r. every (unnamed r.device) rs ≡ false) rs
  each_named [] = tt
  each_named (r ∷ rs) =
      (ground (arith, ==-refl r.device), All-weaken (λ x h. ground arith) rs (each_named rs))

  -- The edits of a device that is routed to the request of a result.
  routed_edits-edits_at :
      (r : DeviceResult)
      → r.request ≡ route r.device
      → routed_edits r.device
        ≡ edits_at (show_path (claim_dir claim_name r.request)) r.device r.request
  routed_edits-edits_at r e =
      device_edits-edits_at claim_name _
      ∙ ap (λ q. edits_at (show_path (claim_dir claim_name q)) r.device q) (sym e)

  pub map-described :
      {P S : Type 0} (qualified_name : Text → Text → Text → Text) (s : DeviceState P S)
      (claim : ResourceClaim) (results rs : List DeviceResult)
      → All (λ r. r.request ≡ route r.device) rs
      → map (described qualified_name s claim results (λ device. some (routed_edits device))) rs
        ≡ map
            (λ r.
              described qualified_name s claim results
                (λ device.
                  some (edits_at (show_path (claim_dir claim_name r.request)) device r.request))
                r)
            rs
  map-described qualified_name s claim results [] _ = refl
  map-described qualified_name s claim results (r ∷ rs) (h, hs) = λ i.
      record (described qualified_name s claim results (λ device. some (routed_edits device)) r) {
        container_edits = some (routed_edits-edits_at r h i);
      }
      ∷ map-described qualified_name s claim results rs hs i
