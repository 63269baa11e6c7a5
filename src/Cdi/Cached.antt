-- ===== src/Cdi/Cached.antt =====
-- Writing and deleting the spec of a claim changes only the CDI cache.
use dra_example_driver.Common.{◌≡◌, sym, ◌∙◌, ap, List, Text}
use dra_example_driver.Failure.{Outcome, ok, describe, map_error, map_error-eq-ok}
use dra_example_driver.Failure.Action.{lift, gets, modify, ◌>>=◌}
use dra_example_driver.Failure.Triples.{
  Triple, gets-Triple, modify-Triple, bind-Triple, bind-lift-Triple, weaken-Triple,
}
use dra_example_driver.Devices.{PreparedDevice}
use dra_example_driver.World.{Host, World}
use dra_example_driver.Cdi.Names.{CdiHandler}
use dra_example_driver.Cdi.ClaimSpec.{
  claim_spec, spec_name, create_claim_spec_file, delete_claim_spec_file,
}

module _ (H : Host) where
  -- The spec of the devices, with the least version that can express it, is what `k'` has more than
  -- `k`.
  abbrev pub SpecWritten : CdiHandler → Text → List PreparedDevice → H.Cache → H.Cache → Type 0
  SpecWritten cdi claim_uid pds k k' =
      (version : Text) × (H.minimum_required_version (claim_spec H cdi claim_uid pds) ≡ ok version)
      × (H.write_spec (record (claim_spec H cdi claim_uid pds) { version = version })
            (spec_name H cdi claim_uid) k
          ≡ ok k')

module _ {H : Host} where
  -- `R` does not speak of the CDI cache.
  pub record IgnoresCache (R : World H → Type 0) : Type 0 where
    pub cache : (w : World H) (k : H.Cache) → R w → R (record w { cache = k })

module _ {H : Host} (k : H.Cache) (cdi : CdiHandler) (claim_uid : Text) {R : World H → Type 0}
    (i : IgnoresCache R) where
  abbrev From : World H → Type 0
  From w = R w × (w.cache ≡ k)

  -- Replacing the cache by what a call of the CDI library returns, if it returns.
  replace_cache-Triple :
      (f : H.Cache → Outcome H.Cache)
      → Triple From
          (gets (λ w. f w.cache) >>= λ r. lift r >>= λ k'. modify (λ w. record w { cache = k' }))
          (λ a w. R w × (f k ≡ ok w.cache))
          From
  replace_cache-Triple f =
      bind-Triple {Q = λ r w. From w × (r ≡ f k)} (gets (λ w. f w.cache)) _
        (gets-Triple _ (λ w h. (h, ap f h.1)))
        λ r. record {
          run = λ w h.
              (bind-lift-Triple {P = From} {R = λ a w. R w × (f k ≡ ok w.cache)} r _
                  (λ k' e. modify-Triple _ (λ v g. (i.cache v k' g.0, sym h.1 ∙ e))) (λ v g. g)).run
                w h.0;
        }

  pub create_claim_spec_file-Triple :
      (pds : List PreparedDevice)
      → Triple From
          (create_claim_spec_file H cdi claim_uid pds)
          (λ a w. R w × SpecWritten H cdi claim_uid pds k w.cache)
          From
  unfolding create_claim_spec_file
  create_claim_spec_file-Triple pds =
      bind-lift-Triple
        (map_error (describe "failed to get minimum required CDI spec version")
          (H.minimum_required_version (claim_spec H cdi claim_uid pds)))
        _
        (λ version e.
          weaken-Triple _ (λ w h. h) (λ a w h. (h.0, (version, map_error-eq-ok _ _ e, h.1)))
            (λ w h. h)
            (replace_cache-Triple (
              H.write_spec (record (claim_spec H cdi claim_uid pds) { version = version })
                (spec_name H cdi claim_uid))))
        (λ w h. h)

  pub delete_claim_spec_file-Triple :
      Triple From
        (delete_claim_spec_file H cdi claim_uid)
        (λ a w. R w × (H.remove_spec (spec_name H cdi claim_uid) k ≡ ok w.cache))
        From
  unfolding delete_claim_spec_file
  delete_claim_spec_file-Triple = replace_cache-Triple (H.remove_spec (spec_name H cdi claim_uid))
