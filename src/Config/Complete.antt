-- ===== src/Config/Complete.antt =====
-- When `GetOpaqueDeviceConfigs` returns configs.
use mathlib.Core.Path.{subst}
use dra_example_driver.Common.{
  All-append, All-keep, ℕ, ◌+◌, ◌≡◌, refl, inl, inr, Option, none, some, List, [], ◌∷◌, ◌++◌,
  append-nil, append_assoc, Text, ◌==◌, All, keep, arith, Bool-cases, nat_eq, list_eq,
}
use dra_example_driver.Failure.{Outcome, ok}
use dra_example_driver.Api.{OpaqueParameters, DeviceConfiguration}
use dra_example_driver.Config.{
  OpaqueDeviceConfig, split_sources, decode_one, decode_all, get_opaque_device_configs,
}
use dra_example_driver.Config.Decoded.{
  is_class, is_claim, HasSource, HasOpaque, own_parameters, own_in_order, own_parameters-append,
  Decodes,
}

module _ {P : Type 0} (decode : Text → Outcome P) (driver_name : Text) where
  split_sources_complete :
      (cs of_class of_claim : List DeviceConfiguration)
      → All HasSource cs
      → split_sources cs of_class of_claim
        ≡ ok (of_class ++ keep is_class cs, of_claim ++ keep is_claim cs)
  unfolding split_sources
  split_sources_complete [] a b _ = ground (arith, append-nil a, append-nil b)
  split_sources_complete (c ∷ cs) a b (known, ks) = ground (
    arith,
    split_sources_complete cs (a ++ c ∷ []) b ks,
    split_sources_complete cs a (b ++ c ∷ []) ks,
    append_assoc a (c ∷ []) (keep is_class cs),
    append_assoc b (c ∷ []) (keep is_claim cs),
  )

  decode_all_complete :
      (cs : List DeviceConfiguration) (a : ℕ) (done : List (OpaqueDeviceConfig P))
      → All HasOpaque cs
      → All (Decodes decode) (own_parameters driver_name cs)
      → (out : List (OpaqueDeviceConfig P)) × (decode_all decode driver_name a cs done ≡ ok out)
  unfolding decode_all
  decode_all_complete [] a done _ _ = (done, refl)
  decode_all_complete (c ∷ cs) a done (here, opaque) readable =
      go c.opaque refl (λ n d. decode_all_complete cs n d opaque)
    where
      go :
          (o : Option OpaqueParameters)
          → c.opaque ≡ o
          → ((n : ℕ) (d : List (OpaqueDeviceConfig P))
              → All (Decodes decode) (own_parameters driver_name cs)
              → (out : List (OpaqueDeviceConfig P)) × (decode_all decode driver_name n cs d
                  ≡ ok out))
          → (out : List (OpaqueDeviceConfig P)) × (decode_all decode driver_name a (c ∷ cs) done
              ≡ ok out)
      go none e rest = absurd (here e)
      go (some o) e rest = elim (Bool-cases (o.driver == driver_name)) [
        | inl own ↦
            let shape : own_parameters driver_name (c ∷ cs)
                ≡ (c.requests, o.parameters) ∷ own_parameters driver_name cs =
              ground arith in
            let ((p, value), others) = subst (All (Decodes decode)) shape readable in
            let d : OpaqueDeviceConfig P = record {
              requests = c.requests;
              config = some (record { address = a; payload = p });
            } in
            let step : decode_one decode driver_name a c.requests c.opaque ≡ ok (some d) =
              simp (e, own, value) in
            simp step (rest (a + 1) (done ++ d ∷ []) others)
        | inr foreign ↦
            let shape : own_parameters driver_name (c ∷ cs) ≡ own_parameters driver_name cs =
              ground arith in
            let step : decode_one decode driver_name a c.requests c.opaque ≡ ok none =
              simp (e, foreign) in
            simp step (rest a done (subst (All (Decodes decode)) shape readable))
      ]

  -- Configs are returned whenever every config has a known source and opaque parameters, and those
  -- of this driver decode; the parameters of other drivers need not.
  pub get_opaque_device_configs_complete :
      (possible : List DeviceConfiguration)
      → All HasSource possible
      → All HasOpaque possible
      → All (Decodes decode) (own_in_order driver_name possible)
      → (out : List (OpaqueDeviceConfig P)) × (get_opaque_device_configs decode driver_name possible
          ≡ ok out)
  unfolding get_opaque_device_configs
  get_opaque_device_configs_complete possible known opaque readable =
      let parts = keep is_class possible ++ keep is_claim possible in
      rw (split_sources_complete possible [] [] known) (
        decode_all_complete parts 0 []
          (All-append HasOpaque (keep is_class possible) (keep is_claim possible)
            (All-keep HasOpaque is_class possible opaque)
            (All-keep HasOpaque is_claim possible opaque))
          (rw own_parameters-append readable))
