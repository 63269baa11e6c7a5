-- ===== src/Profile/Network/Edits.antt =====
-- The container edits that the network profile gives a device.
use dra_example_driver.Common.{
  ◌≡◌, refl, sym, ◌∙◌, ap, false, Option, some, List, [], ◌∷◌, ◌++◌, Text, ◌==◌, nat_eq, list_eq,
  All,
}
use dra_example_driver.Failure.{ok, ok-inj}
use dra_example_driver.Api.{DeviceResult}
use dra_example_driver.Checkpoint.Claims.{==-refl}
use dra_example_driver.Profile.Handler.{Object, PerDeviceEdits, no_edits, set_edits}
use dra_example_driver.Profile.Network.{device_edits, edits_of, apply_config}

edits_of-append :
    (claim_name : Text) (xs ys : List DeviceResult) (edits : PerDeviceEdits)
    → edits_of claim_name (xs ++ ys) edits ≡ edits_of claim_name ys (edits_of claim_name xs edits)
unfolding edits_of
edits_of-append claim_name [] ys edits = refl
edits_of-append claim_name (x ∷ xs) ys edits =
    edits_of-append claim_name xs ys (set_edits x.device (device_edits claim_name x) edits)

edits_of_others :
    (claim_name device : Text) (rs : List DeviceResult) (edits : PerDeviceEdits)
    → All (λ q. (device == q.device) ≡ false) rs
    → edits_of claim_name rs edits device ≡ edits device
unfolding edits_of
edits_of_others claim_name device [] edits _ = refl
edits_of_others claim_name device (q ∷ rs) edits (other, others) =
    edits_of_others claim_name device rs (set_edits q.device (device_edits claim_name q) edits)
      others
    ∙ rw other refl

-- The edits that `ApplyConfig` of the network profile returns for a device are those that it makes for
-- the last result that names the device.
pub apply_config_last :
    {P : Type 0} (claim_name : Text) (config : Option (Object P)) (before : List DeviceResult)
    (r : DeviceResult) (after : List DeviceResult) (edits : PerDeviceEdits)
    → All (λ q. (r.device == q.device) ≡ false) after
    → apply_config claim_name config (before ++ r ∷ after) ≡ ok edits
    → edits r.device ≡ some (device_edits claim_name r)
unfolding apply_config edits_of
apply_config_last claim_name config before r after edits others e =
    ap (λ m. m r.device) (sym (ok-inj e) ∙ edits_of-append claim_name before (r ∷ after) no_edits)
    ∙ edits_of_others claim_name r.device after _ others
    ∙ rw (==-refl r.device) refl
