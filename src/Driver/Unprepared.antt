-- ===== src/Driver/Unprepared.antt =====
-- What a request to unprepare several claims returns.
use dra_example_driver.Common.{
  ◌≡◌, refl, sym, ◌∙◌, ap, ◌⊎◌, inl, inr, Option, none, some, List, [], ◌∷◌, Text, nat_eq, list_eq,
}
use dra_example_driver.Common.Dict.{Dict, insert}
use dra_example_driver.Failure.{Error, Outcome, ok, err, panicked, wrap, ok-inj}
use dra_example_driver.Failure.Action.{>>=-eq-ok, ◌>>=◌, try}
use dra_example_driver.Devices.{DeviceState}
use dra_example_driver.World.{Host, World}
use dra_example_driver.State.{unprepare}
use dra_example_driver.Driver.{
  unprepare_result, unprepare_resource_claim, unprepare_claims, unprepare_resource_claims,
}

module _ (H : Host) (s : DeviceState H.Payload H.Status) where
  -- The error says how the call for the claim ended, from the one world to the other.
  abbrev pub Reports : Text → World H → Option Error → World H → Type 0
  Reports claim_uid w r w' =
      ((u : Unit {0}) × (unprepare H s claim_uid w ≡ (ok u, w')) × (r ≡ none))
      ⊎ ((e : Error) × (unprepare H s claim_uid w ≡ (err e, w'))
          × (r ≡ some (wrap "error unpreparing devices for claim" e)))

  -- One error or nil for each claim, each call in the world that the one before left.
  abbrev pub Releases : List Text → World H → List (Option Error) → World H → Type 0
  Releases [] w [] w' = w ≡ w'
  Releases (claim_uid ∷ claims) w (r ∷ rs) w' =
      (v : World H) × Reports claim_uid w r v × Releases claims v rs w'
  Releases _ w _ w' = ⊥

  -- The errors under the UIDs, a later one in the place of an earlier one.
  abbrev pub errors_by_uid :
      List Text → List (Option Error) → Dict Text (Option Error) → Dict Text (Option Error)
  errors_by_uid (claim_uid ∷ claims) (r ∷ rs) result =
      errors_by_uid claims rs (insert claim_uid r result)
  errors_by_uid _ _ result = result

  report_lem :
      (claim_uid : Text) (w w' : World H) (r : Option Error)
      → unprepare_resource_claim H s claim_uid w ≡ (ok r, w')
      → Reports claim_uid w r w'
  unfolding unprepare_resource_claim
  report_lem claim_uid w w' r e =
      go (unprepare H s claim_uid w).0 (unprepare H s claim_uid w).1 refl e
    where
      go :
          (o : Outcome (Unit {0})) (v : World H)
          → unprepare H s claim_uid w ≡ (o, v)
          → (try (λ _. (o, v)) >>= λ o'. unprepare_result H s o') w ≡ (ok r, w')
          → Reports claim_uid w r w'
      go (ok u) v called q =
          inl (u, called ∙ ap (λ x. (ok u, x)) (ap (λ p. p.1) q), sym (ok-inj (ap (λ p. p.0) q)))
      go (err x) v called q =
          inr (x, called ∙ ap (λ y. (err x, y)) (ap (λ p. p.1) q), sym (ok-inj (ap (λ p. p.0) q)))
      go panicked v called q = absurd (cc)

  releases_lem :
      (claims : List Text) (acc result : Dict Text (Option Error)) (w w' : World H)
      → unprepare_claims H s claims acc w ≡ (ok result, w')
      → (rs : List (Option Error)) × Releases claims w rs w'
        × (result ≡ errors_by_uid claims rs acc)
  unfolding unprepare_claims
  releases_lem [] acc result w w' e = ([], ap (λ p. p.1) e, sym (ok-inj (ap (λ p. p.0) e)))
  releases_lem (claim_uid ∷ claims) acc result w w' e =
      let (r, v, called, rest) =
        >>=-eq-ok (unprepare_resource_claim H s claim_uid) _ w w' result e in
      let (rs, released, same) = releases_lem claims (insert claim_uid r acc) result v w' rest in
      (r ∷ rs, (v, report_lem claim_uid w v r called, released), same)

  -- If a request to unprepare claims returns, then `Unprepare` was called for each UID in turn, each
  -- call in the world that the one before left, and the map holds under each UID the outcome of the
  -- last call with it: nil where `Unprepare` returned, and its error where it failed.
  pub unprepare_resource_claims_sound :
      (claims : List Text) (w w' : World H) (result : Dict Text (Option Error))
      → unprepare_resource_claims H s claims w ≡ (ok result, w')
      → (rs : List (Option Error)) × Releases claims w rs w' × (result ≡ errors_by_uid claims rs [])
  unfolding unprepare_resource_claims
  unprepare_resource_claims_sound claims w w' result e = releases_lem claims [] result w w' e
