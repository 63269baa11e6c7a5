-- ===== src/Health.antt =====
-- `Check` of cmd/dra-example-kubeletplugin/health.go. How the calls of `GetInfo` and of
-- `NodePrepareResources` end is given; the second is made only if the first returns.
pub mod Start
use dra_example_driver.Common.{
  ◌≡◌, refl, inl, inr, ◌↔◌, true, Bool-cases, if◌then◌else◌, List, [], ◌∷◌, Text, codes, nat_eq,
  list_eq, contains,
}
use dra_example_driver.Failure.{Outcome, ok, err, failure, panicked}

pub data ServingStatus : Type 0 where
  serving not_serving : ServingStatus

abbrev pub known_services : List Text
known_services = [] ∷ codes "liveness" ∷ []

abbrev pub status_of_call : {A : Type 0} → Outcome A → Outcome ServingStatus → Outcome ServingStatus
status_of_call (ok a) rest = rest
status_of_call (err e) rest = ok not_serving
status_of_call panicked rest = panicked

unfoldable pub check : {A B : Type 0} → Text → Outcome A → Outcome B → Outcome ServingStatus
check service info prepared =
    if contains known_services service
    then status_of_call info (status_of_call prepared (ok serving))
    else err (failure "unknown service")

-- The driver is reported as serving just if the service asked for is the whole server or liveness,
-- and both the registration service and the DRA service answer without an error.
pub check_serving :
    {A B : Type 0} (service : Text) (info : Outcome A) (prepared : Outcome B)
    → (check service info prepared ≡ ok serving) ↔ (
        (contains known_services service ≡ true)
        × ((a : A) × (info ≡ ok a))
        × ((b : B) × (prepared ≡ ok b)))
unfolding check
check_serving {A} {B} service info prepared =
    (there info prepared, λ (known, (a, i), (b, p)). rw (known, i, p) refl)
  where
    there :
        (i : Outcome A) (p : Outcome B)
        → (if contains known_services service
            then status_of_call i (status_of_call p (ok serving))
            else err (failure "unknown service"))
          ≡ ok serving
        → (contains known_services service ≡ true) × ((a : A) × (i ≡ ok a)) × ((b : B) × (p ≡ ok b))
    there i p h = elim (Bool-cases (contains known_services service)) [
      | inl known ↦ let (a, b) = both i p (rw known at h) in (known, a, b)
      | inr unknown ↦ absurd (impossible (rw unknown at h))
    ]
      where
        impossible : (err (failure "unknown service")) ≡ ok serving → ⊥
        impossible e = cc

        both :
            (i : Outcome A) (p : Outcome B)
            → status_of_call i (status_of_call p (ok serving)) ≡ ok serving
            → ((a : A) × (i ≡ ok a)) × ((b : B) × (p ≡ ok b))
        both (ok a) (ok b) e = ((a, refl), (b, refl))
        both (ok a) (err x) e = cc
        both (ok a) panicked e = cc
        both (err x) p e = cc
        both panicked p e = cc
