-- ===== src/Cdi/Names.antt =====
-- `CDIHandler` of cmd/dra-example-kubeletplugin/cdi.go and the names that it builds. The cache that
-- it holds is a part of the world. `qualified_name` is `QualifiedName` of the CDI library's parser.
use dra_example_driver.Common.{List, ◌∷◌, ◌++◌, Text, codes, map}

pub record CdiHandler : Type 0 where
  pub driver_name : Text
  pub cdi_class : Text

abbrev pub cdi_common_device_name : Text
cdi_common_device_name = codes "common"

unfoldable pub vendor : CdiHandler → Text
vendor cdi = codes "k8s." ++ cdi.driver_name

unfoldable pub kind : CdiHandler → Text
unfolding vendor
kind cdi = vendor cdi ++ (codes "/" ++ cdi.cdi_class)

-- `fmt.Sprintf("%s-%s", claimUID, device)`
abbrev pub claim_device_name : Text → Text → Text
claim_device_name claim_uid device = claim_uid ++ (codes "-" ++ device)

module _ (qualified_name : Text → Text → Text → Text) where
  abbrev pub qualified : CdiHandler → Text → Text
  qualified cdi name = qualified_name (vendor cdi) cdi.cdi_class name

  unfoldable pub get_claim_devices : CdiHandler → Text → List Text → List Text
  unfolding vendor
  get_claim_devices cdi claim_uid devices =
      qualified cdi cdi_common_device_name
      ∷ map (λ device. qualified cdi (claim_device_name claim_uid device)) devices
