-- ===== src/Driver/Batches.antt =====
-- What a request for several claims returns.
use dra_example_driver.Common.{
  ◌≡◌, refl, sym, ◌∙◌, ap, ◌⊎◌, inl, inr, true, false, Option-cases, none, some, List, [], ◌∷◌,
  ◌++◌, map, append-nil, append_assoc, Text, nat_eq, list_eq, contains,
}
use dra_example_driver.Common.Dict.{Dict, lookup, insert, lookup-insert-none}
use mathlib.Core.Bool.{true≢false}
use dra_example_driver.Failure.{Error, Outcome, ok, err, panicked, wrap, ok-inj}
use dra_example_driver.Failure.Action.{>>=-eq-ok, ◌>>=◌, try}
use dra_example_driver.Api.{ResourceClaim, Device}
use dra_example_driver.Devices.{DeviceState}
use dra_example_driver.Compute.{MapOrder}
use dra_example_driver.World.{Host, World}
use dra_example_driver.State.{prepare}
use dra_example_driver.Driver.{
  PluginDevice, PrepareResult, plugin_device, append_plugin_devices, prepare_result,
  prepare_resource_claim, prepare_claims, prepare_resource_claims,
}

append_plugin_devices-map :
    (ds : List Device) (prepared : List PluginDevice)
    → append_plugin_devices ds prepared ≡ prepared ++ map plugin_device ds
unfolding append_plugin_devices
append_plugin_devices-map [] prepared = sym (append-nil prepared)
append_plugin_devices-map (d ∷ ds) prepared =
    append_plugin_devices-map ds (prepared ++ plugin_device d ∷ [])
    ∙ append_assoc prepared (plugin_device d ∷ []) _

module _ (H : Host) (s : DeviceState H.Payload H.Status) where
  -- The result says how the call for the claim ended, from the one world to the other.
  abbrev pub Answers :
      MapOrder H.Payload → ResourceClaim → World H → PrepareResult → World H → Type 0
  Answers order claim w r w' =
      ((ds : List Device) × (prepare H s order claim w ≡ (ok ds, w'))
        × (r.devices
            ≡ map
                (λ d. record {
                  requests = d.request_names;
                  pool_name = d.pool_name;
                  device_name = d.device_name;
                  cdi_device_ids = d.cdi_device_ids;
                })
                ds)
        × (r.error ≡ none))
      ⊎ ((e : Error) × (prepare H s order claim w ≡ (err e, w'))
          × (r.devices ≡ [])
          × (r.error ≡ some (wrap "error preparing devices for claim" e)))

  abbrev Claims : Type 0
  Claims = List (MapOrder H.Payload × ResourceClaim)

  -- One result for each claim, each call in the world that the one before left.
  abbrev pub Serves : Claims → World H → List PrepareResult → World H → Type 0
  Serves [] w [] w' = w ≡ w'
  Serves ((order, claim) ∷ claims) w (r ∷ rs) w' =
      (v : World H) × Answers order claim w r v × Serves claims v rs w'
  Serves _ w _ w' = ⊥

  -- The results under the UIDs of their claims, a later one in the place of an earlier one.
  abbrev pub by_uid :
      Claims → List PrepareResult → Dict Text PrepareResult → Dict Text PrepareResult
  by_uid ((order, claim) ∷ claims) (r ∷ rs) result = by_uid claims rs (insert claim.uid r result)
  by_uid _ _ result = result

  answer_lem :
      (order : MapOrder H.Payload) (claim : ResourceClaim) (w w' : World H) (r : PrepareResult)
      → prepare_resource_claim H s order claim w ≡ (ok r, w')
      → Answers order claim w r w'
  unfolding prepare_resource_claim
  answer_lem order claim w w' r e =
      go (prepare H s order claim w).0 (prepare H s order claim w).1 refl e
    where
      go :
          (o : Outcome (List Device)) (v : World H)
          → prepare H s order claim w ≡ (o, v)
          → (try (λ _. (o, v)) >>= λ o'. prepare_result H s o') w ≡ (ok r, w')
          → Answers order claim w r w'
      go (ok ds) v called q =
          let same = ok-inj (ap (λ p. p.0) q) in
          inl (
            ds,
            called ∙ ap (λ x. (ok ds, x)) (ap (λ p. p.1) q),
            ap (λ x. x.devices) (sym same) ∙ append_plugin_devices-map ds [],
            ap (λ x. x.error) (sym same),
          )
      go (err x) v called q =
          let same = ok-inj (ap (λ p. p.0) q) in
          inr (
            x,
            called ∙ ap (λ y. (err x, y)) (ap (λ p. p.1) q),
            ap (λ y. y.devices) (sym same),
            ap (λ y. y.error) (sym same),
          )
      go panicked v called q = absurd (cc)

  serves_lem :
      (claims : Claims) (acc result : Dict Text PrepareResult) (w w' : World H)
      → prepare_claims H s claims acc w ≡ (ok result, w')
      → (rs : List PrepareResult) × Serves claims w rs w' × (result ≡ by_uid claims rs acc)
  unfolding prepare_claims
  serves_lem [] acc result w w' e = ([], ap (λ p. p.1) e, sym (ok-inj (ap (λ p. p.0) e)))
  serves_lem ((order, claim) ∷ claims) acc result w w' e =
      let (r, v, called, rest) =
        >>=-eq-ok (prepare_resource_claim H s order claim) _ w w' result e in
      let (rs, served, same) = serves_lem claims (insert claim.uid r acc) result v w' rest in
      (r ∷ rs, (v, answer_lem order claim w v r called, served), same)

  complete_lem :
      (claims : Claims) (acc result : Dict Text PrepareResult) (w w' : World H) (uid : Text)
      → prepare_claims H s claims acc w ≡ (ok result, w')
      → lookup uid result ≡ none
      → (lookup uid acc ≡ none) × (contains (map (λ (_, claim). claim.uid) claims) uid ≡ false)
  unfolding prepare_claims
  complete_lem [] acc result w w' uid e missing =
      (ap (lookup uid) (ok-inj (ap (λ p. p.0) e)) ∙ missing, refl)
  complete_lem ((order, claim) ∷ claims) acc result w w' uid e missing =
      let (r₁, v, called, rest) =
        >>=-eq-ok (prepare_resource_claim H s order claim) _ w w' result e in
      let (before, others) =
        complete_lem claims (insert claim.uid r₁ acc) result v w' uid rest missing in
      let (other, old) = lookup-insert-none uid claim.uid r₁ acc before in (old, rw other others)

  -- If a request to prepare claims returns, then `Prepare` was called for each claim in turn, each call
  -- in the world that the one before left, and the map holds under each UID the result of the last
  -- claim with it: the devices that `Prepare` returned, each with its requests, pool, device and CDI
  -- device IDs, or no devices and its error.
  pub prepare_resource_claims_sound :
      (claims : List (MapOrder H.Payload × ResourceClaim)) (w w' : World H)
      (result : Dict Text PrepareResult)
      → prepare_resource_claims H s claims w ≡ (ok result, w')
      → (rs : List PrepareResult) × Serves claims w rs w' × (result ≡ by_uid claims rs [])
  unfolding prepare_resource_claims
  prepare_resource_claims_sound claims w w' result e = serves_lem claims [] result w w' e

  -- If a request to prepare claims returns, then no claim is without a result, whatever became of the
  -- claims before it.
  pub prepare_resource_claims_complete :
      (claims : List (MapOrder H.Payload × ResourceClaim)) (w w' : World H)
      (result : Dict Text PrepareResult) (uid : Text)
      → prepare_resource_claims H s claims w ≡ (ok result, w')
      → contains (map (λ (_, claim). claim.uid) claims) uid ≡ true
      → (r : PrepareResult) × (lookup uid result ≡ some r)
  unfolding prepare_resource_claims lookup
  prepare_resource_claims_complete claims w w' result uid e asked =
      elim (Option-cases (lookup uid result)) [
        | inl missing ↦
            absurd (true≢false (sym asked ∙ (complete_lem claims [] result w w' uid e missing).1))
        | inr (r, found) ↦ (r, found)
      ]
