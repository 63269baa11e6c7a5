-- ===== src/Tests/Calls.antt =====
-- The theorems on `Prepare`, `Unprepare` and the checkpoint file, at concrete worlds.
use dra_example_driver.Common.{
  ◌≡◌, refl, ◌∙◌, ap, ◌⊎◌, true, false, String, Option, none, some, List, [], ◌∷◌, Text, codes,
  ◌==◌, if◌then◌else◌, nat_eq, list_eq,
}
use dra_example_driver.Common.Dict.{lookup}
use dra_example_driver.Failure.{Error, ok, err, panicked, failure}
use dra_example_driver.Api.{ResourceClaim}
use dra_example_driver.Cdi.Cached.{SpecWritten}
use dra_example_driver.Cdi.ClaimSpec.{spec_name}
use dra_example_driver.Checkpoint.{new_checkpoint, add_claim_to_checkpoint, has_claim}
use dra_example_driver.Checkpoint.V1.{to_v1}
use dra_example_driver.CheckpointFile.{read_checkpoint, write_checkpoint}
use dra_example_driver.CheckpointFile.Atomic.{Written}
use dra_example_driver.CheckpointFile.Read.{stored}
use dra_example_driver.CheckpointFile.RoundTrip.{
  IsCodec, SameBesides, write_checkpoint_atomic, read-write,
}
use dra_example_driver.Checkpoint.Claims.{has_claim-add, ==-refl}
use dra_example_driver.Compute.{MapOrder}
use dra_example_driver.Devices.{PreparedDevice}
use dra_example_driver.World.{Host, World, attempt}
use dra_example_driver.State.{prepare, unprepare}
use dra_example_driver.State.Prepare
use dra_example_driver.State.Unprepare
use dra_example_driver.State.Prepare.{prepare_sound, prepare_failed}
use dra_example_driver.State.Idempotent.{prepare-prepare}
use dra_example_driver.State.Unprepare.{unprepare_sound, unprepare_failed}
use dra_example_driver.State.Unreadable.{unprepare_unreadable}
use dra_example_driver.State.RoundTrip.{unprepare-prepare}
use dra_example_driver.History.{prepared, Reach, start, later}
use dra_example_driver.Driver.{PrepareResult, prepare_resource_claims, unprepare_resource_claims}
use dra_example_driver.Driver.Unprepared.{Releases, errors_by_uid, unprepare_resource_claims_sound}
use dra_example_driver.Driver.Batches.{Serves, by_uid, prepare_resource_claims_sound}
use dra_example_driver.Tests.Setup.{toy_host, state, order, claim, fresh_world}
use dra_example_driver.Tests.Runs.{
  runs, devices, answer, prepared_world, unprepared_world, full_disk,
}

pub toy_codec : IsCodec toy_host
toy_codec v b e = cc

prepare_sound_example :
    Prepare.Returned toy_host state order claim fresh_world devices prepared_world
prepare_sound_example =
    prepare_sound toy_host state order claim fresh_world prepared_world devices runs.0

prepare_failed_example :
    Prepare.NotReturned toy_host state order claim full_disk
      (prepare toy_host state order claim full_disk).1
prepare_failed_example =
    prepare_failed toy_host state order claim full_disk
      (prepare toy_host state order claim full_disk).1
      (prepare toy_host state order claim full_disk).0 refl (λ ds q. cc (runs.3))

prepare-prepare_example :
    prepare toy_host state order claim prepared_world ≡ (ok devices, prepared_world)
prepare-prepare_example =
    prepare-prepare toy_host state order claim toy_codec fresh_world prepared_world devices runs.0
      (λ q. cc) runs.1

unprepare_sound_example :
    Unprepare.Returned toy_host state claim.uid prepared_world unprepared_world
unprepare_sound_example =
    unprepare_sound toy_host state claim.uid prepared_world unprepared_world runs.2

unprepare_failed_example :
    Unprepare.NotReturned toy_host state claim.uid full_disk
      (unprepare toy_host state claim.uid full_disk).1
unprepare_failed_example =
    unprepare_failed toy_host state claim.uid full_disk
      (unprepare toy_host state claim.uid full_disk).1
      (unprepare toy_host state claim.uid full_disk).0 refl (λ q. cc (runs.4))

empty_has : has_claim claim.uid new_checkpoint ≡ false
unfolding has_claim
empty_has = refl

unprepare-prepare_example :
    (stored toy_host unprepared_world.checkpoint_file ≡ ok new_checkpoint)
    × (unprepared_world.temp_files ≡ [])
    × ((pds : List PreparedDevice) × SpecWritten toy_host state.cdi claim.uid pds []
          prepared_world.cache
        × (toy_host.remove_spec (spec_name toy_host state.cdi claim.uid) prepared_world.cache
            ≡ ok unprepared_world.cache))
unprepare-prepare_example =
    unprepare-prepare toy_host state order claim toy_codec new_checkpoint fresh_world prepared_world
      unprepared_world devices refl empty_has runs.0 runs.2

-- A host whose decoder refuses every file.
abbrev broken_host : Host
broken_host = record toy_host {
  decode_checkpoint = λ b. err (failure "unexpected end of JSON input");
}

abbrev broken_world : World broken_host
broken_world = record {
  tree = [];
  checkpoint_file = some (to_v1 new_checkpoint);
  temp_files = [];
  cache = [];
  cluster = tt;
  faults = [];
}

unprepare_unreadable_example :
    unprepare broken_host state claim.uid broken_world
    ≡ (panicked, record broken_world { checkpoint_file = some (to_v1 new_checkpoint) })
unprepare_unreadable_example =
    unprepare_unreadable broken_host state claim.uid broken_world _ (to_v1 new_checkpoint) refl refl
      refl

abbrev pub both_calls : Reach toy_host state fresh_world (claim.uid ∷ []) prepared_world
both_calls = later start (prepared order claim runs.0)

pair_lem : {A B : Type 0} (p : A × B) {a : A} → p.0 ≡ a → p ≡ (a, p.1)
pair_lem p e = ap (λ a. (a, p.1)) e

refl_lookup : lookup claim.uid ((claim.uid, answer) ∷ []) ≡ some answer
unfolding lookup
refl_lookup = rw (==-refl claim.uid) refl

-- After the claim has been prepared it is in the checkpoint.
pub prepared_has : has_claim claim.uid (add_claim_to_checkpoint claim new_checkpoint) ≡ true
prepared_has = has_claim-add claim.uid claim new_checkpoint ∙ uid_lem
  where
    uid_lem : (if claim.uid == claim.uid then true else has_claim claim.uid new_checkpoint) ≡ true
    uid_lem = rw (==-refl claim.uid) refl

write_checkpoint_atomic_example :
    SameBesides toy_host full_disk (write_checkpoint toy_host new_checkpoint full_disk).1
    × (((write_checkpoint toy_host new_checkpoint full_disk).1.checkpoint_file ≡ none)
        ⊎ Written toy_host new_checkpoint
            (write_checkpoint toy_host new_checkpoint full_disk).1.checkpoint_file)
write_checkpoint_atomic_example =
    write_checkpoint_atomic toy_host new_checkpoint full_disk
      (write_checkpoint toy_host new_checkpoint full_disk).1
      (write_checkpoint toy_host new_checkpoint full_disk).0 refl

abbrev written_world : World toy_host
written_world = record fresh_world { checkpoint_file = some (to_v1 new_checkpoint) }

written_lem : write_checkpoint toy_host new_checkpoint fresh_world ≡ (ok tt, written_world)
unfolding write_checkpoint attempt
written_lem = refl

read-write_example :
    ((read_checkpoint toy_host written_world).0 ≡ ok new_checkpoint)
    ⊎ ((message : String) × ((read_checkpoint toy_host written_world).0 ≡ err (failure message)))
read-write_example =
    read-write toy_host toy_codec new_checkpoint fresh_world written_world written_lem

abbrev requests : List (MapOrder Text × ResourceClaim)
requests = (order, claim) ∷ []

prepare_resource_claims_sound_example :
    (rs : List PrepareResult) × Serves toy_host state requests fresh_world rs
      (prepare_resource_claims toy_host state requests fresh_world).1
    × ((claim.uid, answer) ∷ [] ≡ by_uid toy_host state requests rs [])
prepare_resource_claims_sound_example =
    prepare_resource_claims_sound toy_host state requests fresh_world
      (prepare_resource_claims toy_host state requests fresh_world).1 ((claim.uid, answer) ∷ [])
      (pair_lem (prepare_resource_claims toy_host state requests fresh_world) runs.5)

abbrev released : List Text
released = claim.uid ∷ codes "u2" ∷ []

unprepare_resource_claims_sound_example :
    (rs : List (Option Error)) × Releases toy_host state released prepared_world rs
      (unprepare_resource_claims toy_host state released prepared_world).1
    × ((claim.uid, none) ∷ (codes "u2", none) ∷ [] ≡ errors_by_uid toy_host state released rs [])
unprepare_resource_claims_sound_example =
    unprepare_resource_claims_sound toy_host state released prepared_world
      (unprepare_resource_claims toy_host state released prepared_world).1
      ((claim.uid, none) ∷ (codes "u2", none) ∷ [])
      (pair_lem (unprepare_resource_claims toy_host state released prepared_world) runs.10)
