-- ===== src/Profile/Network.antt =====
-- internal/profiles/network/network.go: the network profile. It gives each device that a claim is
-- allocated a directory of the host, and has its own copy of `extractStableClaimName`.
pub mod StableName
pub mod Edits
pub mod Directories
use dra_example_driver.Common.{Option, none, some, List, [], ◌∷◌, ◌++◌, Text, codes}
use dra_example_driver.Failure.{Outcome, ok, err, failure}
use dra_example_driver.Api.{DeviceResult, ContainerEdits, Mount}
use dra_example_driver.Paths.{FilePath, join_path, show_path}
use dra_example_driver.Profile.Handler.{Object, PerDeviceEdits, no_edits, set_edits, ConfigHandler}
use StableName.{extract_stable_claim_name}

-- `HostBaseDir`, /var/run/kubevirt/cdi
abbrev pub host_base_dir : FilePath
host_base_dir = codes "var" ∷ codes "run" ∷ codes "kubevirt" ∷ codes "cdi" ∷ []

-- `Validate`
abbrev pub validate : {P : Type 0} → Option (Object P) → Outcome (Unit {0})
validate (some config) = err (failure "configuration not supported for network profile")
validate none = ok tt

-- `claimDir` in `ApplyConfig`
unfoldable pub mount_dir : Text → Text → FilePath
unfolding extract_stable_claim_name
mount_dir claim_name request =
    join_path host_base_dir (extract_stable_claim_name claim_name ∷ request ∷ [])

-- The container edits that `ApplyConfig` gives one allocation result.
unfoldable pub device_edits : Text → DeviceResult → ContainerEdits
unfolding mount_dir
device_edits claim_name result =
    let dir = show_path (mount_dir claim_name result.request) in
    record {
      env =
          (codes "KUBEVIRT_NETWORK_DEVICE=" ++ result.device)
          ∷ (codes "KUBEVIRT_NETWORK_PATH=" ++ dir)
          ∷ (codes "KUBEVIRT_NETWORK_REQUEST=" ++ result.request)
          ∷ [];
      mounts =
          record { host_path = dir; container_path = dir; options = codes "rbind" ∷ codes "z" ∷ [] }
          ∷ [];
    }

-- The loop of `ApplyConfig` over the results.
unfoldable pub edits_of : Text → List DeviceResult → PerDeviceEdits → PerDeviceEdits
edits_of claim_name [] edits = edits
edits_of claim_name (r ∷ rs) edits =
    edits_of claim_name rs (set_edits r.device (device_edits claim_name r) edits)

unfoldable pub apply_config :
    {P : Type 0} → Text → Option (Object P) → List DeviceResult → Outcome PerDeviceEdits
unfolding edits_of
apply_config claim_name config results = ok (edits_of claim_name results no_edits)

unfoldable pub network_profile : {P : Type 0} → ConfigHandler P
unfolding apply_config
network_profile = record { validate = validate; apply_config = apply_config }
