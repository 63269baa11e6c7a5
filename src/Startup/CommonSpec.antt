-- ===== src/Startup/CommonSpec.antt =====
-- The CDI spec that is written once, for all claims.
use dra_example_driver.Common.{
  ◌≡◌, refl, sym, ◌∙◌, true, Text, codes, ◌++◌, map, contains, nat_eq, list_eq,
}
use mathlib.Core.Path.{subst}
use dra_example_driver.Failure.{ok, describe, wrap, map_error}
use dra_example_driver.Failure.Action.{lift, gets, modify, on_error, ◌>>=◌}
use dra_example_driver.Failure.Triples.{
  Triple, Post, pure-Triple, gets-Triple, modify-Triple, bind-Triple, bind-lift-Triple,
  on_error-Triple, trivial-Triple,
}
use dra_example_driver.Api.{Spec}
use dra_example_driver.Cdi.Names.{CdiHandler, cdi_common_device_name, kind, vendor}
use dra_example_driver.Checkpoint.Claims.{==-refl}
use dra_example_driver.Common.Int.{pos_part}
use dra_example_driver.Devices.{DeviceState}
use dra_example_driver.Flags.{Flags}
use dra_example_driver.World.{Host, World}
use dra_example_driver.Startup.{
  enumerate_devices, new_cdi_handler, create_common_spec_file, common_spec, new_device_state,
}

-- The last spec that was written to the cache has the device common, under the kind
-- `k8s.<driver>/<class>`.
abbrev pub CommonWritten : (H : Host) → CdiHandler → World H → Type 0
CommonWritten H cdi w =
    (spec : Spec) × (name : Text) × (k : H.Cache) × (H.write_spec spec name k ≡ ok w.cache)
    × (spec.kind ≡ (codes "k8s." ++ cdi.driver_name) ++ (codes "/" ++ cdi.cdi_class))
    × (contains (map (λ d. d.name) spec.devices) (codes "common") ≡ true)

module _ (H : Host) where
  abbrev Anything : World H → Type 0
  Anything w = Unit {0}

  module _ (cdi : CdiHandler) (spec : Spec) (name : Text)
      (same : spec.kind ≡ (codes "k8s." ++ cdi.driver_name) ++ (codes "/" ++ cdi.cdi_class))
      (listed : contains (map (λ d. d.name) spec.devices) (codes "common") ≡ true) where
    written-Triple :
        Triple Anything
          (gets (λ w. H.write_spec spec name w.cache) >>= λ r.
            lift r >>= λ k'. modify (λ w. record w { cache = k' }))
          (λ u w. CommonWritten H cdi w)
          Anything
    written-Triple =
        bind-Triple {Q = λ r w. (k : H.Cache) × (r ≡ H.write_spec spec name k)}
          (gets (λ w. H.write_spec spec name w.cache)) _ (gets-Triple _ (λ w h. (w.cache, refl)))
          λ r.
            bind-lift-Triple r _
              (λ k' e.
                modify-Triple (λ w. record w { cache = k' })
                  (λ w h. (spec, name, h.0, sym h.1 ∙ e, same, listed)))
              (λ w h. tt)

  create_common_spec_file-Triple :
      (cdi : CdiHandler) (node_name : Text)
      → Triple Anything
          (create_common_spec_file H cdi node_name)
          (λ u w. CommonWritten H cdi w)
          Anything
  unfolding create_common_spec_file common_spec kind vendor
  create_common_spec_file-Triple cdi node_name =
      bind-lift-Triple
        (map_error (describe "failed to get minimum required CDI spec version")
          (H.minimum_required_version (common_spec H cdi node_name)))
        _
        (λ version e.
          bind-lift-Triple
            (map_error (wrap "failed to generate Spec name") (
              H.name_transient_spec (record (common_spec H cdi node_name) { version = version })
                cdi_common_device_name))
            _
            (λ name e'.
              written-Triple cdi (record (common_spec H cdi node_name) { version = version }) name
                refl (rw (==-refl (codes "common")) refl))
            (λ w h. tt))
        (λ w h. tt)

  new_device_state-Triple :
      (flags : Flags) (node_name : Text)
      → Triple Anything
          (new_device_state H flags node_name)
          (λ s w. CommonWritten H s.cdi w)
          Anything
  unfolding new_device_state
  new_device_state-Triple flags node_name =
      bind-Triple {Q = λ r. Anything}
        (on_error (describe "error enumerating all possible devices")
          (enumerate_devices H flags.node_name (pos_part flags.num_devices)))
        _ (trivial-Triple _)
        λ resources.
          bind-Triple {Q = λ cdi. Anything}
            (on_error (describe "unable to create CDI handler")
              (new_cdi_handler H flags.cdi_root flags.driver_name flags.profile))
            _ (trivial-Triple _)
            λ cdi.
              bind-Triple {Q = λ u w. CommonWritten H cdi w}
                (on_error (describe "unable to create CDI spec file for common edits")
                  (create_common_spec_file H cdi node_name))
                _
                (on_error-Triple (describe "unable to create CDI spec file for common edits")
                  (create_common_spec_file H cdi node_name)
                  (create_common_spec_file-Triple cdi node_name))
                λ _. pure-Triple _ (λ w h. h)

  pub new_device_state_common :
      (flags : Flags) (node_name : Text) (w w' : World H) (s : DeviceState H.Payload H.Status)
      → new_device_state H flags node_name w ≡ (ok s, w')
      → CommonWritten H s.cdi w'
  new_device_state_common flags node_name w w' s e =
      subst (Post (λ s v. CommonWritten H s.cdi v) Anything) e
        ((new_device_state-Triple flags node_name).run w tt)
