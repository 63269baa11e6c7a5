-- ===== src/ClaimDir/SamePath.antt =====
-- The driver makes the directory that the network profile names and mounts.
use dra_example_driver.Common.{◌≡◌, sym, ◌∙◌, ap, some, nat_eq, list_eq, [], ◌∷◌, ◌++◌, Text, codes}
use dra_example_driver.Common.Dict.{lookup}
use dra_example_driver.Api.{ContainerEdits, DeviceResult}
use dra_example_driver.Failure.{ok}
use dra_example_driver.Paths.{FilePath, join_path, show_path}
use dra_example_driver.Profile.Network.{host_base_dir, mount_dir, device_edits}
use dra_example_driver.Profile.Network.StableName.{extract_stable_claim_name-same}
use dra_example_driver.World.{Host, World, Attributes, directory}
use dra_example_driver.ClaimDir.{claim_dir, create_claim_directory}
use dra_example_driver.ClaimDir.Ready.{create_claim_directory_sound}

-- The environment and the only mount that give a container the directory of the host under the same
-- path, for a device and a request.
abbrev pub edits_at : Text → Text → Text → ContainerEdits
edits_at dir device request = record {
  env =
      (codes "KUBEVIRT_NETWORK_DEVICE=" ++ device)
      ∷ (codes "KUBEVIRT_NETWORK_PATH=" ++ dir)
      ∷ (codes "KUBEVIRT_NETWORK_REQUEST=" ++ request)
      ∷ [];
  mounts =
      record { host_path = dir; container_path = dir; options = codes "rbind" ∷ codes "z" ∷ [] }
      ∷ [];
}

claim_dir-mount_dir :
    (claim_name request : Text) → claim_dir claim_name request ≡ mount_dir claim_name request
unfolding claim_dir mount_dir
claim_dir-mount_dir claim_name request =
    ap (λ name. join_path host_base_dir (name ∷ request ∷ []))
      (sym (extract_stable_claim_name-same claim_name))

pub device_edits-edits_at :
    (claim_name : Text) (r : DeviceResult)
    → device_edits claim_name r
      ≡ edits_at (show_path (claim_dir claim_name r.request)) r.device r.request
unfolding device_edits
device_edits-edits_at claim_name r =
    ap (λ dir. edits_at (show_path dir) r.device r.request)
      (sym (claim_dir-mount_dir claim_name r.request))

module _ (H : Host) where
  -- If the directory of a claim and of the request of an allocation result is made without an error,
  -- then the container edits that the network profile gives the result name the device, the request
  -- and the path of the directory that was made, and mount just that directory, under its own path;
  -- and it is there.
  pub create_claim_directory-device_edits :
      (claim_name : Text) (r : DeviceResult) (dir : FilePath) (w w' : World H)
      → create_claim_directory H claim_name r.request r.device w ≡ (ok dir, w')
      → (device_edits claim_name r ≡ edits_at (show_path dir) r.device r.request)
        × ((a : Attributes) × (lookup dir w'.tree ≡ some (directory a)))
  create_claim_directory-device_edits claim_name r dir w w' e =
      let (at, (a, there, _, _), _) =
        create_claim_directory_sound H claim_name r.request r.device dir w w' e in
      (
        device_edits-edits_at claim_name r
            ∙ ap (λ p. edits_at (show_path p) r.device r.request) (sym at),
        (a, there),
      )
