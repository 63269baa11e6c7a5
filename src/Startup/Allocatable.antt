-- ===== src/Startup/Allocatable.antt =====
-- Which devices can be allocated once the driver has started.
use dra_example_driver.Common.{
  ℕ, zero, suc, ◌+◌, ◌≡◌, refl, sym, ◌∙◌, ap, inl, inr, true, false, Bool-cases, if◌then◌else◌,
  none, some, List, [], ◌∷◌, ◌++◌, append_assoc, append-nil, Text, codes, ltb, ◌==◌, nat_eq,
  list_eq, arith,
}
use mathlib.Core.Bool.{true≢false}
use mathlib.Core.Path.{subst}
use dra_example_driver.Common.Dict.{Dict, lookup, insert, lookup-insert}
use dra_example_driver.Failure.{ok, describe, wrap, map_error}
use dra_example_driver.Failure.Action.{modify, on_error}
use dra_example_driver.Failure.Triples.{
  Triple, Post, pure-Triple, modify-Triple, bind-Triple, bind-lift-Triple, on_error-Triple,
  trivial-Triple,
}
use dra_example_driver.Checkpoint.Claims.{==-eq, ==-refl}
use dra_example_driver.Common.Int.{pos_part}
use dra_example_driver.Flags.{Flags}
use dra_example_driver.Devices.{DeviceState, PoolDevice}
use dra_example_driver.World.{Host, World}
use dra_example_driver.Startup.CommonSpec.{CommonWritten, new_device_state_common}
use dra_example_driver.World.Files.{mkdir_all}
use dra_example_driver.Profile.Network.{host_base_dir}
use dra_example_driver.Startup.Decimal.{show_decimal, show_decimal-injective}
use dra_example_driver.Startup.{
  pool_device, append_pool_devices, add_devices, add_slices, slices_of, enumerate_devices,
  new_cdi_handler, create_common_spec_file, new_device_state,
}

append_cancel {ℓ} : {A : Type ℓ} (xs ys zs : List A) → xs ++ ys ≡ xs ++ zs → ys ≡ zs
append_cancel [] ys zs e = e
append_cancel (x ∷ xs) ys zs e = append_cancel xs ys zs (cc e)

pool_device_name-injective : (i j : ℕ) → (pool_device i).name ≡ (pool_device j).name → i ≡ j
unfolding pool_device
pool_device_name-injective i j e =
    show_decimal-injective i j (append_cancel (codes "network-") _ _ e)

-- The devices from `i` on.
devices_from : ℕ → ℕ → List PoolDevice
devices_from zero i = []
devices_from (suc rounds) i = pool_device i ∷ devices_from rounds (i + 1)

append_pool_devices_lem :
    (rounds i : ℕ) (devices : List PoolDevice)
    → append_pool_devices rounds i devices ≡ devices ++ devices_from rounds i
unfolding append_pool_devices devices_from
append_pool_devices_lem zero i devices = sym (append-nil devices)
append_pool_devices_lem (suc rounds) i devices =
    append_pool_devices_lem rounds (i + 1) (devices ++ pool_device i ∷ [])
    ∙ append_assoc devices (pool_device i ∷ []) _

lookup-insert_device :
    (i j : ℕ) (d : Dict Text PoolDevice)
    → lookup (pool_device j).name (insert (pool_device i).name (pool_device i) d)
      ≡ (if j == i then some (pool_device j) else lookup (pool_device j).name d)
lookup-insert_device i j d = elim (Bool-cases (j == i)) [
  | inl same ↦
      let e = ==-eq j i same in
      let named : ((pool_device j).name == (pool_device i).name) ≡ true =
        ap (λ x. (pool_device j).name == (pool_device x).name) (sym e)
        ∙ ==-refl (pool_device j).name in
      rw same (
        lookup-insert (pool_device j).name (pool_device i).name (pool_device i) d
        ∙ rw named (ap (λ x. some (pool_device x)) (sym e)))
  | inr other ↦ rw other (
      lookup-insert (pool_device j).name (pool_device i).name (pool_device i) d
      ∙ rw (distinct i j other) refl)
]
  where
    distinct : (i j : ℕ) → (j == i) ≡ false → ((pool_device j).name == (pool_device i).name) ≡ false
    distinct i j other = elim (Bool-cases ((pool_device j).name == (pool_device i).name)) [
      | inl named ↦
          let e =
            pool_device_name-injective j i
              (==-eq (pool_device j).name (pool_device i).name named) in
          absurd (true≢false (sym (==-refl j) ∙ ap (λ x. j == x) e ∙ other))
      | inr apart ↦ apart
    ]

lookup-add_devices :
    (rounds i j : ℕ) (d : Dict Text PoolDevice)
    → lookup (pool_device j).name (add_devices (devices_from rounds i) d) ≡ (
        if ltb j i
        then lookup (pool_device j).name d
        else if ltb j (i + rounds)
        then some (pool_device j)
        else lookup (pool_device j).name d)
unfolding add_devices devices_from
lookup-add_devices zero i j d = ground arith
lookup-add_devices (suc rounds) i j d = ground (
  arith,
  lookup-add_devices rounds (i + 1) j (insert (pool_device i).name (pool_device i) d),
  lookup-insert_device i j d,
)

slices_of_lem :
    (node : Text) (slices : List (List PoolDevice)) → slices_of node ((node, slices) ∷ []) ≡ slices
unfolding lookup
slices_of_lem node slices = ap (λ o. elim o [ none ↦ [] | some s ↦ s ]) (found node slices)
  where
    found :
        (node : Text) (slices : List (List PoolDevice))
        → lookup node ((node, slices) ∷ []) ≡ some slices
    found node slices = rw (==-refl node) refl

module _ (H : Host) (flags : Flags) (node_name : Text) where
  abbrev Anything : World H → Type 0
  Anything w = Unit {0}

  -- The state that is returned, whose devices are those that were enumerated.
  abbrev Started : DeviceState H.Payload H.Status → Type 0
  Started s =
      (s.allocatable
        ≡ add_slices
            (slices_of flags.node_name
              ((flags.node_name, append_pool_devices (pos_part flags.num_devices) 0 [] ∷ []) ∷ []))
            [])
      × (s.driver_name ≡ flags.driver_name)
      × (s.cdi.cdi_class ≡ flags.profile)

  started : Triple Anything (new_device_state H flags node_name) (λ s w. Started s) Anything
  unfolding new_device_state enumerate_devices new_cdi_handler
  started =
      bind-Triple
        {Q = λ r w.
          r ≡ (flags.node_name, append_pool_devices (pos_part flags.num_devices) 0 [] ∷ []) ∷ []}
        (on_error (describe "error enumerating all possible devices")
          (enumerate_devices H flags.node_name (pos_part flags.num_devices)))
        _
        (on_error-Triple _ _ (
          bind-Triple
            (on_error (wrap "failed to create base directory") (mkdir_all host_base_dir 0o755)) _
            (trivial-Triple _) λ _. pure-Triple _ (λ w h. refl)))
        λ resources.
          bind-Triple
            {Q = λ c w.
              (resources
                ≡ (flags.node_name, append_pool_devices (pos_part flags.num_devices) 0 [] ∷ [])
                  ∷ [])
              × (c.cdi_class ≡ flags.profile)}
            (on_error (describe "unable to create CDI handler")
              (new_cdi_handler H flags.cdi_root flags.driver_name flags.profile))
            _
            (on_error-Triple _ _ (
              bind-lift-Triple
                (map_error (wrap "unable to create a new CDI cache") (H.open_cache flags.cdi_root))
                _
                (λ cache e.
                  bind-Triple
                    {Q = λ u w.
                      resources
                      ≡ (
                        flags.node_name,
                        append_pool_devices (pos_part flags.num_devices) 0 [] ∷ [],
                      )
                        ∷ []}
                    (modify (λ w. record w { cache = cache })) _
                    (modify-Triple (λ w. record w { cache = cache }) (λ w h. h))
                    λ _.
                      pure-Triple
                        (record { driver_name = flags.driver_name; cdi_class = flags.profile })
                        (λ w h. (h, refl)))
                (λ w h. tt)))
            λ cdi. record {
              run = λ w (same, cdi_class).
                  (bind-Triple {P = Anything} {E = Anything} {R = λ s v. Started s}
                      (on_error (describe "unable to create CDI spec file for common edits")
                        (create_common_spec_file H cdi node_name))
                      _ (trivial-Triple _)
                      (λ _. pure-Triple _ (λ v h. (
                        ap (λ r. add_slices (slices_of flags.node_name r) []) same,
                        refl,
                        cdi_class,
                      )))).run
                    w tt;
            }

  started_devices :
      add_slices
        (slices_of flags.node_name
          ((flags.node_name, append_pool_devices (pos_part flags.num_devices) 0 [] ∷ []) ∷ []))
        []
      ≡ add_devices (devices_from (pos_part flags.num_devices) 0) []
  unfolding add_slices
  started_devices =
      ap (λ slices. add_slices slices []) (slices_of_lem flags.node_name _)
      ∙ ap (λ ds. add_devices ds []) (append_pool_devices_lem (pos_part flags.num_devices) 0 [])

  -- If `NewDeviceState` returns without an error, then of the devices named network-0, network-1 and
  -- so on just those below the number of devices can be allocated, each with the index of its name and
  -- the type kubevirt-network-directory, the driver name and the CDI class are those of the flags, and a
  -- CDI spec with the device common, under the kind `k8s.<driver>/<class>`, is the last thing that was
  -- written to the CDI cache.
  pub new_device_state_sound :
      (w w' : World H) (s : DeviceState H.Payload H.Status) (j : ℕ)
      → new_device_state H flags node_name w ≡ (ok s, w')
      → (lookup (codes "network-" ++ show_decimal j) s.allocatable ≡ (
          if ltb j (pos_part flags.num_devices)
          then some (record {
            name = codes "network-" ++ show_decimal j;
            index = j;
            device_type = codes "kubevirt-network-directory";
          })
          else none))
        × (s.driver_name ≡ flags.driver_name)
        × (s.cdi.cdi_class ≡ flags.profile)
        × CommonWritten H s.cdi w'
  unfolding lookup pool_device
  new_device_state_sound w w' s j e =
      let (allocatable, name, cdi_class) =
        subst (Post (λ s v. Started s) Anything) e (started.run w tt) in
      (
        ap (lookup (pool_device j).name) (allocatable ∙ started_devices)
            ∙ lookup-add_devices (pos_part flags.num_devices) 0 j []
            ∙ ground arith,
        name,
        cdi_class,
        new_device_state_common H flags node_name w w' s e,
      )
