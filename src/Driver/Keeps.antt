-- ===== src/Driver/Keeps.antt =====
-- What every call of `Prepare` and `Unprepare` keeps, the requests of the kubelet keep.
use dra_example_driver.Common.{◌≡◌, refl, Option, List, [], ◌∷◌, Text, All, nat_eq, list_eq}
use dra_example_driver.Common.Dict.{Dict, insert}
use dra_example_driver.Failure.{Error, Outcome, ok, err, panicked}
use dra_example_driver.Failure.Action.{Action, try}
use dra_example_driver.Failure.Triples.{
  Post, pure-Triple, panic-Triple, bind-Triple, try-Triple, weaken-Triple,
}
use dra_example_driver.Api.{ResourceClaim, Device}
use dra_example_driver.Compute.{MapOrder}
use dra_example_driver.Devices.{DeviceState}
use dra_example_driver.Driver.{
  PrepareResult, prepare_result, prepare_resource_claim, prepare_claims, prepare_resource_claims,
  unprepare_result, unprepare_resource_claim, unprepare_claims, unprepare_resource_claims,
}
use dra_example_driver.State.{prepare, unprepare}
use dra_example_driver.World.{Host, World}
use dra_example_driver.World.Keeps.{Keeps}

-- However the call ends, what held before holds after.
pub keeps_lem :
    {H : Host} {A : Type 0} {P : World H → Type 0} (m : Action (World H) A)
    → ((w w' : World H) (r : Outcome A) → m w ≡ (r, w') → P w → P w')
    → Keeps P m
keeps_lem {H} {A} {P} m h = record { run = λ w p. go (m w).0 (m w).1 (h w (m w).1 (m w).0 refl p) }
  where
    go : (r : Outcome A) (w : World H) → P w → Post (λ a. P) P (r, w)
    go (ok a) w p = p
    go (err e) w p = p
    go panicked w p = p

module _ {H : Host} {P : World H → Type 0} where
  pub try-Keeps : {A : Type 0} (m : Action (World H) A) → Keeps P m → Keeps P (try m)
  try-Keeps m k =
      try-Triple {Q = λ a. P} m (weaken-Triple m (λ w h. h) (λ a w h. h) (λ w h. (h, λ e. h)) k)

module _ {H : Host} (s : DeviceState H.Payload H.Status) {P : World H → Type 0} where
  prepare_claims-Keeps :
      (claims : List (MapOrder H.Payload × ResourceClaim)) (result : Dict Text PrepareResult)
      → All (λ (order, claim). Keeps P (prepare H s order claim)) claims
      → Keeps P (prepare_claims H s claims result)
  unfolding prepare_claims prepare_resource_claim
  prepare_claims-Keeps [] result _ = pure-Triple result (λ w h. h)
  prepare_claims-Keeps ((order, claim) ∷ claims) result (keeps, rest) =
      bind-Triple _ _ (bind-Triple _ _ (try-Keeps (prepare H s order claim) keeps) answers)
        λ r. prepare_claims-Keeps claims (insert claim.uid r result) rest
    where
      answers : (o : Outcome (List Device)) → Keeps P (prepare_result H s o)
      answers (ok ds) = pure-Triple _ (λ w h. h)
      answers (err e) = pure-Triple _ (λ w h. h)
      answers panicked = panic-Triple (λ w h. h)

  pub prepare_resource_claims-Keeps :
      (claims : List (MapOrder H.Payload × ResourceClaim))
      → All (λ (order, claim). Keeps P (prepare H s order claim)) claims
      → Keeps P (prepare_resource_claims H s claims)
  unfolding prepare_resource_claims
  prepare_resource_claims-Keeps claims keeps = prepare_claims-Keeps claims [] keeps

  module _ (unprepares : (claim_uid : Text) → Keeps P (unprepare H s claim_uid)) where
    unprepare_claims-Keeps :
        (claims : List Text) (result : Dict Text (Option Error))
        → Keeps P (unprepare_claims H s claims result)
    unfolding unprepare_claims unprepare_resource_claim
    unprepare_claims-Keeps [] result = pure-Triple result (λ w h. h)
    unprepare_claims-Keeps (claim_uid ∷ claims) result =
        bind-Triple _ _
          (bind-Triple _ _ (try-Keeps (unprepare H s claim_uid) (unprepares claim_uid)) answers)
          λ r. unprepare_claims-Keeps claims (insert claim_uid r result)
      where
        answers : (o : Outcome (Unit {0})) → Keeps P (unprepare_result H s o)
        answers (ok a) = pure-Triple _ (λ w h. h)
        answers (err e) = pure-Triple _ (λ w h. h)
        answers panicked = panic-Triple (λ w h. h)

    pub unprepare_resource_claims-Keeps :
        (claims : List Text) → Keeps P (unprepare_resource_claims H s claims)
    unfolding unprepare_resource_claims
    unprepare_resource_claims-Keeps claims = unprepare_claims-Keeps claims []
