-- ===== src/Cdi/ClaimSpec.antt =====
-- `CreateClaimSpecFile` and `DeleteClaimSpecFile` of cmd/dra-example-kubeletplugin/cdi.go.
use dra_example_driver.Common.{
  ℕ, ◌-◌, Bool, true, false, ◌&&◌, List, [], ◌∷◌, ◌++◌, Text, codes, leb, map, if◌then◌else◌,
}
use dra_example_driver.Failure.{describe, map_error}
use dra_example_driver.Failure.Action.{Action, lift, gets, modify, ◌>>=◌}
use dra_example_driver.Api.{ContainerEdits, CdiDevice, Spec}
use dra_example_driver.Naming.{is_alphanumeric_byte}
use dra_example_driver.Devices.{PreparedDevice}
use dra_example_driver.World.{Host, World}
use dra_example_driver.Cdi.Names.{CdiHandler, vendor, kind, claim_device_name}

-- `strings.ToUpper` on ASCII.
abbrev upper_byte : ℕ → ℕ
upper_byte c = if leb b'a' c && leb c b'z' then c - 32 else c

unfoldable pub to_upper : Text → Text
to_upper = map upper_byte

-- `nonWord.ReplaceAllString(s, "_")`: each run of bytes that are not alphanumeric is one underscore.
replace_runs : Bool → Text → Text
replace_runs in_run [] = []
replace_runs in_run (c ∷ s) =
    let word = c ∷ replace_runs false s in
    let other = replace_runs true s in
    if is_alphanumeric_byte c then word else if in_run then other else b'_' ∷ other

unfoldable pub device_env_key : Text → Text
unfolding replace_runs to_upper
device_env_key device = to_upper (replace_runs false device)

-- `%t`
abbrev show_bool : Bool → Text
show_bool true = codes "true"
show_bool false = codes "false"

-- The edits that the driver itself makes for a device.
unfoldable pub claim_edits : CdiHandler → Text → PreparedDevice → ContainerEdits
unfolding device_env_key
claim_edits cdi claim_uid pd = record {
  env =
      (to_upper cdi.cdi_class
        ++ (codes "_DEVICE_"
            ++ (device_env_key pd.device.device_name ++ (codes "_RESOURCE_CLAIM=" ++ claim_uid))))
      ∷ (codes "DRA_ADMIN_ACCESS=" ++ show_bool pd.admin_access)
      ∷ [];
  mounts = [];
}

module _ (H : Host) (cdi : CdiHandler) (claim_uid : Text) where
  abbrev pub cdi_device : PreparedDevice → CdiDevice
  cdi_device pd = record {
    name = claim_device_name claim_uid pd.device.device_name;
    edits = H.append_edits (claim_edits cdi claim_uid pd) pd.container_edits;
  }

  -- The loop over the devices, with `spec.Devices` so far.
  unfoldable pub append_cdi_devices : List PreparedDevice → List CdiDevice → List CdiDevice
  append_cdi_devices [] devices = devices
  append_cdi_devices (pd ∷ pds) devices = append_cdi_devices pds (devices ++ cdi_device pd ∷ [])

  -- The spec before its version is known.
  unfoldable pub claim_spec : List PreparedDevice → Spec
  unfolding append_cdi_devices kind
  claim_spec pds = record { version = []; kind = kind cdi; devices = append_cdi_devices pds [] }

  unfoldable pub spec_name : Text
  unfolding vendor
  spec_name = H.transient_spec_name (vendor cdi) cdi.cdi_class claim_uid

  unfoldable pub create_claim_spec_file : List PreparedDevice → Action (World H) (Unit {0})
  unfolding claim_spec spec_name
  create_claim_spec_file pds = do
    let spec = claim_spec pds
    version ← lift (
        map_error (describe "failed to get minimum required CDI spec version")
          (H.minimum_required_version spec))
    written ← gets (λ w. H.write_spec (record spec { version = version }) spec_name w.cache)
    cache ← lift written
    modify (λ w. record w { cache = cache })

  unfoldable pub delete_claim_spec_file : Action (World H) (Unit {0})
  unfolding spec_name
  delete_claim_spec_file = do
    removed ← gets (λ w. H.remove_spec spec_name w.cache)
    cache ← lift removed
    modify (λ w. record w { cache = cache })
