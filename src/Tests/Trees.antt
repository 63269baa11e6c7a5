-- ===== src/Tests/Trees.antt =====
-- The theorems on the trees of directories at concrete inputs, and a `Prepare` that returns.
use dra_example_driver.Common.{
  ◌≡◌, refl, if◌then◌else◌, Bool, true, false, none, some, inl, [], ◌∷◌, ◌++◌, codes, nat_eq,
  list_eq, nat_eqb, Text, All, keep, arith, ◌==◌,
}
use dra_example_driver.Common.Dict.{lookup, insert}
use dra_example_driver.Failure.{ok}
use dra_example_driver.Api.{ResourceClaim, Spec}
use dra_example_driver.Checkpoint.{
  Checkpoint, new_checkpoint, has_claim, find_claim, add_claim_to_checkpoint, request_of,
  prepared_claim, record_results,
}
use dra_example_driver.Checkpoint.V1.{to_v1}
use dra_example_driver.Cdi.ClaimSpec.{claim_spec, spec_name}
use dra_example_driver.ClaimDir.{claim_dir, base_dir, delete_claim_directory}
use dra_example_driver.ClaimDir.Confined.{IsPlain, NoParent, leads_on, claim_dir_confined}
use dra_example_driver.ClaimDir.Created.{Qemu}
use dra_example_driver.ClaimDir.Way.{Clear}
use dra_example_driver.Devices.{get_devices}
use dra_example_driver.Naming.{extract_stable_claim_name}
use dra_example_driver.Naming.Strings.{split, Lacks}
use dra_example_driver.State.{prepare, unprepare}
use dra_example_driver.State.Directories.{prepare_directories}
use dra_example_driver.State.Shared.{unprepare_shared}
use dra_example_driver.State.Total.{directory_of, prepare_returns}
use dra_example_driver.World.{World, Attributes, directory}
use dra_example_driver.World.Files.{is_below}
use dra_example_driver.Tests.Setup.{toy_host, state, order, claim, fresh_world, result, foreign}
use dra_example_driver.Tests.Runs.{runs, devices, computed_devices, prepared_world}

no_slash : Text → Bool
no_slash [] = true
no_slash (c ∷ s) = if nat_eqb c b'/' then false else no_slash s

no_slash_lem : (s : Text) → no_slash s ≡ true → Lacks b'/' s
unfolding no_slash
no_slash_lem [] h = tt
no_slash_lem (c ∷ s) h = (ground arith, no_slash_lem s (ground arith))

claim-IsPlain : IsPlain claim.name
unfolding no_slash list_eq nat_eq
claim-IsPlain = (no_slash_lem claim.name refl, refl, refl)

net-IsPlain : IsPlain (codes "net")
unfolding no_slash list_eq nat_eq
net-IsPlain = (no_slash_lem (codes "net") refl, refl, refl)

net_NoParent : NoParent (codes "net")
unfolding split list_eq nat_eq
net_NoParent = (refl, tt)

outside_lem :
    is_below (base_dir ++ extract_stable_claim_name claim.name ∷ []) (codes "etc" ∷ []) ≡ false
unfolding is_below list_eq nat_eq
outside_lem = refl

claim_dir_confined_example :
    (claim_dir claim.name (codes "net")
      ≡ base_dir ++ extract_stable_claim_name claim.name ∷ keep leads_on (split b'/' (codes "net")))
    × (lookup
          (codes "etc" ∷ [])
          (delete_claim_directory toy_host claim.name (codes "net") prepared_world).1.tree
        ≡ lookup (codes "etc" ∷ []) prepared_world.tree)
claim_dir_confined_example =
    claim_dir_confined toy_host claim.name (codes "net") prepared_world (codes "etc" ∷ [])
      claim-IsPlain net_NoParent outside_lem

pub unrecorded : has_claim claim.uid new_checkpoint ≡ false
unfolding has_claim find_claim
unrecorded = refl

driver_eq : (state.driver_name == state.driver_name) ≡ true
unfolding list_eq nat_eq
driver_eq = refl

prepare_directories_example :
    (b : Attributes) × (lookup (claim_dir claim.name (codes "net")) prepared_world.tree
      ≡ some (directory b))
    × Qemu b
    × (b.mode ≡ 0o775)
prepare_directories_example =
    prepare_directories toy_host state order claim (codes "net") _ refl (inl (driver_eq, refl))
      fresh_world prepared_world new_checkpoint devices refl unrecorded runs.0

abbrev pub recorded : Checkpoint
recorded = add_claim_to_checkpoint claim new_checkpoint

-- A claim of the same name in another namespace, which is not in the checkpoint.
abbrev namesake : ResourceClaim
namesake = record claim { uid = codes "u2"; namespace = codes "other" }

pub found_lem : find_claim claim.uid recorded.prepared_claims ≡ some (prepared_claim claim)
unfolding find_claim add_claim_to_checkpoint prepared_claim list_eq nat_eq
found_lem = refl

requested : request_of (prepared_claim claim) (codes "network-0") ≡ codes "net"
unfolding prepared_claim record_results lookup list_eq nat_eq
requested = refl

unprepare_shared_example :
    lookup
      (claim_dir namesake.name (codes "net"))
      (unprepare toy_host state claim.uid prepared_world).1.tree
    ≡ none
unfolding prepared_claim record_results
unprepare_shared_example =
    unprepare_shared toy_host state claim.uid namesake.name (codes "net") prepared_world recorded
      (prepared_claim claim) runs.1 runs.6 found_lem (inl requested) refl

fresh_Clear : Clear toy_host (directory_of claim) fresh_world
unfolding lookup
fresh_Clear = record { ways = λ p on a content e. cc; metadata = λ r a e. cc }

own-IsPlain :
    All
      (λ r. IsPlain r.request)
      (keep
        (λ r. r.driver == state.driver_name)
        (result (codes "net") (codes "network-0") ∷ foreign ∷ []))
unfolding list_eq nat_eq
own-IsPlain = (net-IsPlain, tt)

abbrev versioned_spec : Spec
versioned_spec = record (claim_spec toy_host state.cdi claim.uid computed_devices) {
  version = codes "0.3.0";
}

prepare_returns_example :
    (w' : World toy_host) × (prepare toy_host state order claim fresh_world
      ≡ (ok (get_devices computed_devices), w'))
prepare_returns_example =
    prepare_returns toy_host state order claim fresh_world new_checkpoint
      (record { results = result (codes "net") (codes "network-0") ∷ foreign ∷ []; config = [] })
      computed_devices (codes "0.3.0")
      (insert (spec_name toy_host state.cdi claim.uid) versioned_spec []) (to_v1 recorded) refl refl
      unrecorded refl runs.7 refl claim-IsPlain own-IsPlain fresh_Clear refl refl refl
