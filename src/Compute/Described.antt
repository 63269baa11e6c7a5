-- ===== src/Compute/Described.antt =====
-- What `computeDeviceConfig` returns for a result, written out.
use dra_example_driver.Common.{
  ◌≡◌, refl, ap, inl, inr, Bool, false, Option-cases, none, some, List, [], ◌∷◌, ◌++◌, any, map,
  Text, codes, arith,
}
use dra_example_driver.Api.{DeviceResult, Allocation, ResourceClaim}
use dra_example_driver.Profile.{PerDeviceEdits}
use dra_example_driver.Devices.{PreparedDevice, DeviceState}
use dra_example_driver.Cdi.Names.{vendor, get_claim_devices}
use dra_example_driver.Compute.{has_admin_access, check_admin_access, prepared}

module _ {P S : Type 0} (qualified_name : Text → Text → Text → Text) (s : DeviceState P S) where
  -- Whether a result has admin access.
  abbrev pub wants_admin : DeviceResult → Bool
  wants_admin r = elim r.admin_access [ none ↦ false | some b ↦ b ]

  -- The device for a result of a claim: its request, pool and name, the IDs of the device common and of
  -- `<claim UID>-<device>` under the vendor and the class of the driver, its edits, and whether any of
  -- the results of the claim has admin access.
  abbrev pub described :
      ResourceClaim → List DeviceResult → PerDeviceEdits → DeviceResult → PreparedDevice
  described claim results edits r = record {
    device = record {
      request_names = r.request ∷ [];
      pool_name = r.pool;
      device_name = r.device;
      cdi_device_ids =
          qualified_name (codes "k8s." ++ s.cdi.driver_name) s.cdi.cdi_class (codes "common")
          ∷ qualified_name (codes "k8s." ++ s.cdi.driver_name) s.cdi.cdi_class
              (claim.uid ++ (codes "-" ++ r.device))
          ∷ [];
    };
    container_edits = edits r.device;
    admin_access = any wants_admin results;
  }

  has_admin_access-any : (rs : List DeviceResult) → has_admin_access rs ≡ any wants_admin rs
  unfolding has_admin_access
  has_admin_access-any [] = refl
  has_admin_access-any (r ∷ rs) = elim (Option-cases r.admin_access) [
    | inl unset ↦ rw unset (has_admin_access-any rs)
    | inr (b, is_set) ↦ ground (arith, has_admin_access-any rs)
  ]

  check_admin_access-any :
      (claim : ResourceClaim) (a : Allocation)
      → claim.allocation ≡ some a
      → check_admin_access claim ≡ any wants_admin a.results
  unfolding check_admin_access
  check_admin_access-any claim a allocated = rw allocated (has_admin_access-any a.results)

  pub map-prepared-described :
      (claim : ResourceClaim) (a : Allocation) (edits : PerDeviceEdits) (rs : List DeviceResult)
      → claim.allocation ≡ some a
      → map (prepared qualified_name s claim (check_admin_access claim) edits) rs
        ≡ map (described claim a.results edits) rs
  unfolding get_claim_devices vendor
  map-prepared-described claim a edits rs allocated =
      ap (λ admin. map (prepared qualified_name s claim admin edits) rs)
        (check_admin_access-any claim a allocated)
