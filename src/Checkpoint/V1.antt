-- ===== src/Checkpoint/V1.antt =====
-- internal/api/checkpoint/v1: the type that is written to disk, and its conversions from and to the
-- internal type in zz_generated.conversion.go.
use dra_example_driver.Common.{◌≡◌, refl, ap, List, [], ◌∷◌, Option, Text}
use dra_example_driver.Checkpoint.Defs

pub record PreparedClaim : Type 0 where
  pub uid : Text
  pub name : Text
  pub devices : List Text
  pub device_requests : Text → Option Text

pub record Checkpoint : Type 0 where
  pub prepared_claims : List PreparedClaim

abbrev pub claim_from_v1 : PreparedClaim → Defs.PreparedClaim
claim_from_v1 c = record {
  uid = c.uid;
  name = c.name;
  devices = c.devices;
  device_requests = c.device_requests;
}

abbrev pub claim_to_v1 : Defs.PreparedClaim → PreparedClaim
claim_to_v1 c = record {
  uid = c.uid;
  name = c.name;
  devices = c.devices;
  device_requests = c.device_requests;
}

abbrev pub claims_from_v1 : List PreparedClaim → List Defs.PreparedClaim
claims_from_v1 [] = []
claims_from_v1 (c ∷ cs) = claim_from_v1 c ∷ claims_from_v1 cs

abbrev pub claims_to_v1 : List Defs.PreparedClaim → List PreparedClaim
claims_to_v1 [] = []
claims_to_v1 (c ∷ cs) = claim_to_v1 c ∷ claims_to_v1 cs

-- The generated code casts the slice of claims, whose two types have one layout.
unfoldable pub from_v1 : Checkpoint → Defs.Checkpoint
from_v1 c = record { prepared_claims = claims_from_v1 c.prepared_claims }

unfoldable pub to_v1 : Defs.Checkpoint → Checkpoint
to_v1 c = record { prepared_claims = claims_to_v1 c.prepared_claims }

claims_from_v1-claims_to_v1 : (cs : List Defs.PreparedClaim) → claims_from_v1 (claims_to_v1 cs) ≡ cs
claims_from_v1-claims_to_v1 [] = refl
claims_from_v1-claims_to_v1 (c ∷ cs) = ap (λ ds. c ∷ ds) (claims_from_v1-claims_to_v1 cs)

claims_to_v1-claims_from_v1 : (cs : List PreparedClaim) → claims_to_v1 (claims_from_v1 cs) ≡ cs
claims_to_v1-claims_from_v1 [] = refl
claims_to_v1-claims_from_v1 (c ∷ cs) = ap (λ ds. c ∷ ds) (claims_to_v1-claims_from_v1 cs)

-- What is written to a checkpoint in the v1 type is read back: no field of a claim is lost.
pub from_v1-to_v1 : (c : Defs.Checkpoint) → from_v1 (to_v1 c) ≡ c
unfolding from_v1 to_v1
from_v1-to_v1 c = λ i. record { prepared_claims = claims_from_v1-claims_to_v1 c.prepared_claims i }

-- Reading a v1 checkpoint and writing it again gives the same v1 checkpoint.
pub to_v1-from_v1 : (c : Checkpoint) → to_v1 (from_v1 c) ≡ c
unfolding from_v1 to_v1
to_v1-from_v1 c = λ i. record { prepared_claims = claims_to_v1-claims_from_v1 c.prepared_claims i }
