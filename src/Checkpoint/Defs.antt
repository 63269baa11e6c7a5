-- ===== src/Checkpoint/Defs.antt =====
-- The checkpoint's types and the functions that change its list of claims.
use dra_example_driver.Common.{
  Bool, not, Option, none, some, List, [], ◌∷◌, ◌++◌, Text, ◌==◌, nat_eq, list_eq, keep, any,
  if◌then◌else◌,
}
use dra_example_driver.Api.{DeviceResult, Allocation, ResourceClaim}

-- `DeviceRequests` is a Go map: a function into `Option`, with `none` for a key that is not there.
pub record PreparedClaim : Type 0 where
  pub uid : Text
  pub name : Text
  pub devices : List Text
  pub device_requests : Text → Option Text

pub record Checkpoint : Type 0 where
  pub prepared_claims : List PreparedClaim

-- `new(checkpointapi.Checkpoint)`
abbrev pub new_checkpoint : Checkpoint
new_checkpoint = record { prepared_claims = [] }

-- The loop over the results, with `devices` and `deviceRequests` so far.
unfoldable pub record_results :
    List DeviceResult → List Text → (Text → Option Text) → List Text × (Text → Option Text)
record_results [] devices requests = (devices, requests)
record_results (r ∷ rs) devices requests =
    record_results rs (devices ++ r.device ∷ [])
      (λ device. if device == r.device then some r.request else requests device)

abbrev pub recorded : Option Allocation → List Text × (Text → Option Text)
recorded none = ([], λ device. none)
recorded (some a) = record_results a.results [] (λ device. none)

-- The entry that `addClaimToCheckpoint` appends.
unfoldable pub prepared_claim : ResourceClaim → PreparedClaim
unfolding record_results
prepared_claim claim =
    let (devices, requests) = recorded claim.allocation in
    record { uid = claim.uid; name = claim.name; devices = devices; device_requests = requests }

unfoldable pub add_claim_to_checkpoint : ResourceClaim → Checkpoint → Checkpoint
add_claim_to_checkpoint claim c = record {
  prepared_claims = c.prepared_claims ++ prepared_claim claim ∷ [];
}

abbrev pub has_uid : Text → PreparedClaim → Bool
has_uid uid c = c.uid == uid

-- `slices.DeleteFunc` keeps the claims that the test does not match.
unfoldable pub remove_claim_from_checkpoint : Text → Checkpoint → Checkpoint
remove_claim_from_checkpoint uid c = record {
  prepared_claims = keep (λ p. not (has_uid uid p)) c.prepared_claims;
}

-- `slices.ContainsFunc`
unfoldable pub has_claim : Text → Checkpoint → Bool
has_claim uid c = any (has_uid uid) c.prepared_claims

-- `preparedClaim.DeviceRequests[deviceName]`, which is empty for a device that is not there.
abbrev pub request_of : PreparedClaim → Text → Text
request_of c device = elim (c.device_requests device) [ none ↦ [] | some request ↦ request ]

unfoldable pub find_claim : Text → List PreparedClaim → Option PreparedClaim
find_claim uid [] = none
find_claim uid (c ∷ cs) = if has_uid uid c then some c else find_claim uid cs
