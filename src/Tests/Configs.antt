-- ===== src/Tests/Configs.antt =====
-- The theorems on the configs and the devices of a claim, at concrete claims.
use mathlib.Core.List.Perm
use mathlib.Core.List.{Perm}
use dra_example_driver.Common.{
  map, ◌≡◌, refl, true, false, none, some, List, [], ◌∷◌, ◌++◌, Text, codes, nat_eq, list_eq, All,
}
use dra_example_driver.Failure.{Outcome, ok}
use dra_example_driver.Api.{ConfigSource, from_class, from_claim, Allocation, DeviceConfiguration}
use dra_example_driver.Checkpoint.{new_checkpoint, has_claim}
use dra_example_driver.Config.{
  OpaqueDeviceConfig, get_opaque_device_configs, split_sources, decode_all, applies, select,
  default_config,
}
use dra_example_driver.Config.Decoded.{
  HasSource, HasOpaque, Decoded, Decodes, own_in_order, get_opaque_device_configs_sound,
}
use dra_example_driver.Config.Complete.{get_opaque_device_configs_complete}
use dra_example_driver.Config.Precedence.{Ignores, select_sound}
use dra_example_driver.Compute.NetworkProfile.{compute_network}
use dra_example_driver.Compute.Described.{described}
use dra_example_driver.ClaimDir.{claim_dir}
use dra_example_driver.ClaimDir.SamePath.{edits_at}
use dra_example_driver.Paths.{show_path}
use dra_example_driver.Compute.Applied.{HasAppliedEdits, compute_device_config_applied}
use dra_example_driver.Compute.Groups.{Computed, own_results, compute_device_config_sound}
use dra_example_driver.Tests.Runs.{runs, computed_devices}
use dra_example_driver.Tests.Setup.{toy_host, state, order, claim, driver_name, result, foreign}

abbrev config : ConfigSource → Text → Text → DeviceConfiguration
config source driver raw = record {
  source = source;
  requests = [];
  opaque = some (record { driver = driver; parameters = raw });
}

-- One config of the claim, one of the class, and one of another driver.
abbrev possible : List DeviceConfiguration
possible =
    config from_claim driver_name (codes "b")
    ∷ config from_class driver_name (codes "a")
    ∷ config from_class (codes "gpu.example.com") (codes "c")
    ∷ []

abbrev decode : Text → Outcome Text
decode raw = ok raw

abbrev of_requests : List Text → OpaqueDeviceConfig Text
of_requests requests = record { requests = requests; config = none }

possible-HasSource : All HasSource possible
possible-HasSource = (refl, (refl, (refl, tt)))

possible-HasOpaque : All HasOpaque possible
possible-HasOpaque = ((λ e. cc), ((λ e. cc), ((λ e. cc), tt)))

possible-Decodes : All (Decodes decode) (own_in_order driver_name possible)
unfolding list_eq nat_eq
possible-Decodes = ((codes "a", refl), ((codes "b", refl), tt))

get_opaque_device_configs_complete_example :
    (out : List (OpaqueDeviceConfig Text)) × (get_opaque_device_configs decode driver_name possible
      ≡ ok out)
get_opaque_device_configs_complete_example =
    get_opaque_device_configs_complete decode driver_name possible possible-HasSource
      possible-HasOpaque possible-Decodes

abbrev decoded_configs : List (OpaqueDeviceConfig Text)
decoded_configs =
    record { requests = []; config = some (record { address = 0; payload = codes "a" }) }
    ∷ record { requests = []; config = some (record { address = 1; payload = codes "b" }) }
    ∷ []

decoded_lem : get_opaque_device_configs decode driver_name possible ≡ ok decoded_configs
unfolding get_opaque_device_configs split_sources decode_all list_eq nat_eq
decoded_lem = refl

get_opaque_device_configs_sound_example :
    Decoded decode 0 (own_in_order driver_name possible) decoded_configs
    × All HasSource possible
    × All HasOpaque possible
get_opaque_device_configs_sound_example =
    get_opaque_device_configs_sound decode driver_name possible decoded_configs decoded_lem

abbrev net : Text
net = codes "net"

net-applies : applies net (net ∷ []) ≡ true
unfolding list_eq nat_eq
net-applies = refl

other_ignores : applies net (codes "other" ∷ []) ≡ false
unfolding list_eq nat_eq
other_ignores = refl

select_sound_example :
    (c : OpaqueDeviceConfig Text) × (before : List (OpaqueDeviceConfig Text)) × (after : List
      (OpaqueDeviceConfig Text))
    × (select net (default_config ∷ of_requests (net ∷ []) ∷ []) ≡ some c)
    × (default_config ∷ of_requests (net ∷ []) ∷ [] ≡ before ++ c ∷ after)
    × (applies net c.requests ≡ true)
    × All (Ignores net) after
select_sound_example = select_sound net (of_requests (net ∷ []) ∷ [])

nothing_lem : has_claim claim.uid new_checkpoint ≡ false
unfolding has_claim
nothing_lem = refl

compute_device_config_sound_example :
    Computed toy_host.decode_config toy_host.qualified_name state order claim computed_devices
compute_device_config_sound_example =
    compute_device_config_sound toy_host.decode_config toy_host.qualified_name state order claim
      computed_devices (λ gs. Perm.refl gs) runs.7

compute_device_config_applied_example :
    (a : Allocation) × (configs : List (OpaqueDeviceConfig Text)) × (claim.allocation ≡ some a)
    × (get_opaque_device_configs toy_host.decode_config state.driver_name a.config ≡ ok configs)
    × All
        (HasAppliedEdits toy_host.decode_config toy_host.qualified_name state order claim configs)
        computed_devices
compute_device_config_applied_example =
    compute_device_config_applied toy_host.decode_config toy_host.qualified_name state order claim
      computed_devices (λ gs. Perm.refl gs) runs.7

own_routes :
    All
      (λ r. r.request ≡ net)
      (own_results state.driver_name (result net (codes "network-0") ∷ foreign ∷ []))
unfolding list_eq nat_eq
own_routes = (refl, tt)

compute_network_example : Perm computed_devices (
    map
      (λ r.
        described toy_host.qualified_name state claim
          (result net (codes "network-0") ∷ foreign ∷ [])
          (λ device. some (edits_at (show_path (claim_dir claim.name r.request)) device r.request))
          r)
      (own_results state.driver_name (result net (codes "network-0") ∷ foreign ∷ [])))
compute_network_example =
    compute_network toy_host.decode_config toy_host.qualified_name state order claim (λ device. net)
      (record { results = result net (codes "network-0") ∷ foreign ∷ []; config = [] })
      computed_devices (λ gs. Perm.refl gs) (λ gs. Perm.refl gs) refl refl own_routes runs.7
