-- ===== src/Config/Decoded.antt =====
-- What `GetOpaqueDeviceConfigs` returns: the configs of this driver, those of the class before those
-- of the claim, each list in its order, decoded to objects with addresses of their own.
use mathlib.Core.Path.{ap₂, subst, subst₂}
use dra_example_driver.Common.{
  All-append_left, All-append_right, ℕ, ◌+◌, ◌≡◌, refl, sym, ◌∙◌, ap, ◌≢◌, inl, inr, Bool, true,
  false, Option, none, some, List, [], ◌∷◌, ◌++◌, append-nil, append_assoc, Text, ◌==◌, All, keep,
  if◌then◌else◌, arith, Bool-cases, nat_eq, list_eq,
}
use dra_example_driver.Failure.{Outcome, ok, map_error, wrap, >>=-eq-ok, map_error-eq-ok}
use dra_example_driver.Api.{
  ConfigSource, from_class, from_claim, other_source, OpaqueParameters, DeviceConfiguration,
}
use dra_example_driver.Config.{
  OpaqueDeviceConfig, split_sources, decode_one, decode_all, get_opaque_device_configs,
}

abbrev pub is_class : DeviceConfiguration → Bool
is_class c = elim c.source [ from_class ↦ true | from_claim ↦ false | other_source s ↦ false ]

abbrev pub is_claim : DeviceConfiguration → Bool
is_claim c = elim c.source [ from_class ↦ false | from_claim ↦ true | other_source s ↦ false ]

-- The source is one of the two that the driver knows.
abbrev pub HasSource : DeviceConfiguration → Type 0
HasSource c =
    elim c.source [ from_class ↦ true | from_claim ↦ true | other_source s ↦ false ] ≡ true

abbrev pub HasOpaque : DeviceConfiguration → Type 0
HasOpaque c = c.opaque ≢ none

split_sources_sound :
    (cs of_class of_claim class' claim' : List DeviceConfiguration)
    → split_sources cs of_class of_claim ≡ ok (class', claim')
    → (class' ≡ of_class ++ keep is_class cs)
      × (claim' ≡ of_claim ++ keep is_claim cs)
      × All HasSource cs
unfolding split_sources
split_sources_sound [] a b x y h = ground (arith, append-nil a, append-nil b)
split_sources_sound (c ∷ cs) a b x y h = ground (
  arith,
  split_sources_sound cs (a ++ c ∷ []) b x y,
  split_sources_sound cs a (b ++ c ∷ []) x y,
  append_assoc a (c ∷ []) (keep is_class cs),
  append_assoc b (c ∷ []) (keep is_claim cs),
)

module _ (driver_name : Text) where
  abbrev offer : List Text → Option OpaqueParameters → List (List Text × Text)
  offer requests none = []
  offer requests (some o) = if o.driver == driver_name then (requests, o.parameters) ∷ [] else []

  -- The requests and the raw parameters of the configs that are meant for this driver.
  abbrev pub own_parameters : List DeviceConfiguration → List (List Text × Text)
  own_parameters [] = []
  own_parameters (c ∷ cs) = offer c.requests c.opaque ++ own_parameters cs

module _ {P : Type 0} (decode : Text → Outcome P) where
  -- The parameters decode.
  abbrev pub Decodes : List Text × Text → Type 0
  Decodes offered = (p : P) × (decode offered.1 ≡ ok p)

  -- One config for each pair of requests and parameters, with addresses from `a` on.
  abbrev pub Decoded : ℕ → List (List Text × Text) → List (OpaqueDeviceConfig P) → Type 0
  Decoded a [] [] = Unit
  Decoded a ((requests, raw) ∷ rest) (d ∷ ds) =
      (d.requests ≡ requests)
      × ((p : P) × (decode raw ≡ ok p) × (d.config ≡ some (record { address = a; payload = p })))
      × Decoded (a + 1) rest ds
  Decoded a _ _ = ⊥

module _ {P : Type 0} (decode : Text → Outcome P) (driver_name : Text) where
  decode_one-none :
      (a : ℕ) (requests : List Text) (o : Option OpaqueParameters)
      → decode_one decode driver_name a requests o ≡ ok none
      → (offer driver_name requests o ≡ []) × (o ≢ none)
  decode_one-none a requests none h = cc
  decode_one-none a requests (some o) h = elim (Bool-cases (o.driver == driver_name)) [
    | inl own ↦
        let (p, _, e) =
          >>=-eq-ok (map_error (wrap "error decoding config parameters") (decode o.parameters)) _
            (rw own at h) in
        cc
    | inr foreign ↦ (rw foreign, λ e. cc)
  ]

  decode_one-some :
      (a : ℕ) (requests : List Text) (o : Option OpaqueParameters) (d : OpaqueDeviceConfig P)
      → decode_one decode driver_name a requests o ≡ ok (some d)
      → (raw : Text) × (p : P) × (offer driver_name requests o ≡ (requests, raw) ∷ [])
        × (decode raw ≡ ok p)
        × (d ≡ record { requests = requests; config = some (record { address = a; payload = p }) })
        × (o ≢ none)
  decode_one-some a requests none d h = cc
  decode_one-some a requests (some o) d h = elim (Bool-cases (o.driver == driver_name)) [
    | inl own ↦
        let (p, decoded, e) =
          >>=-eq-ok (map_error (wrap "error decoding config parameters") (decode o.parameters)) _
            (rw own at h) in
        (o.parameters, p, rw own, map_error-eq-ok _ (decode o.parameters) decoded, cc, λ e. cc)
    | inr foreign ↦ absurd (ground arith)
  ]

  decode_all_sound :
      (cs : List DeviceConfiguration) (a : ℕ) (done out : List (OpaqueDeviceConfig P))
      → decode_all decode driver_name a cs done ≡ ok out
      → (ds : List (OpaqueDeviceConfig P)) × (out ≡ done ++ ds)
        × Decoded decode a (own_parameters driver_name cs) ds
        × All HasOpaque cs
  unfolding decode_all
  decode_all_sound [] a done out h = ([], cc (append-nil done), tt, tt)
  decode_all_sound (c ∷ cs) a done out h =
      let (o, e, rest) = >>=-eq-ok (decode_one decode driver_name a c.requests c.opaque) _ h in
      go o e rest (decode_all_sound cs a done out)
        (λ d. decode_all_sound cs (a + 1) (done ++ d ∷ []) out)
    where
      go :
          (o : Option (OpaqueDeviceConfig P))
          → decode_one decode driver_name a c.requests c.opaque ≡ ok o
          → elim o [
            | none ↦ decode_all decode driver_name a cs done
            | some d ↦ decode_all decode driver_name (a + 1) cs (done ++ d ∷ [])
          ]
            ≡ ok out
          → (decode_all decode driver_name a cs done ≡ ok out
              → (ds : List (OpaqueDeviceConfig P)) × (out ≡ done ++ ds)
                × Decoded decode a (own_parameters driver_name cs) ds
                × All HasOpaque cs)
          → ((d : OpaqueDeviceConfig P)
              → decode_all decode driver_name (a + 1) cs (done ++ d ∷ []) ≡ ok out
              → (ds : List (OpaqueDeviceConfig P)) × (out ≡ (done ++ d ∷ []) ++ ds)
                × Decoded decode (a + 1) (own_parameters driver_name cs) ds
                × All HasOpaque cs)
          → (ds : List (OpaqueDeviceConfig P)) × (out ≡ done ++ ds)
            × Decoded decode a (own_parameters driver_name (c ∷ cs)) ds
            × All HasOpaque (c ∷ cs)
      go none e rest skip add =
          let (ds, shape, decoded, opaque) = skip rest in
          let (nothing, here) = decode_one-none a c.requests c.opaque e in
          (ds, shape, rw nothing decoded, (here, opaque))
      go (some d) e rest skip add =
          let (ds, shape, decoded, opaque) = add d rest in
          let (raw, p, offered, value, built, here) = decode_one-some a c.requests c.opaque d e in
          (
            d ∷ ds,
            shape ∙ append_assoc done (d ∷ []) ds,
            rw offered (cc, (p, value, cc), decoded),
            (here, opaque),
          )

-- What this driver must decode: the parameters of the class, then those of the claim.
abbrev pub own_in_order : Text → List DeviceConfiguration → List (List Text × Text)
own_in_order driver_name cs =
    own_parameters driver_name (keep is_class cs) ++ own_parameters driver_name (keep is_claim cs)

pub own_parameters-append :
    (driver_name : Text) (xs ys : List DeviceConfiguration)
    → own_parameters driver_name (xs ++ ys)
      ≡ own_parameters driver_name xs ++ own_parameters driver_name ys
own_parameters-append driver_name [] ys = refl
own_parameters-append driver_name (x ∷ xs) ys =
    rw (own_parameters-append driver_name xs ys)
      (sym (append_assoc (offer driver_name x.requests x.opaque) _ _))

All-of_sources :
    (Q : DeviceConfiguration → Type 0) (cs : List DeviceConfiguration)
    → All HasSource cs
    → All Q (keep is_class cs)
    → All Q (keep is_claim cs)
    → All Q cs
All-of_sources Q [] _ _ _ = tt
All-of_sources Q (c ∷ cs) (known, ks) hc hl = go c.source refl (All-of_sources Q cs ks)
  where
    go :
        (s : ConfigSource)
        → c.source ≡ s
        → (All Q (keep is_class cs) → All Q (keep is_claim cs) → All Q cs)
        → All Q (c ∷ cs)
    go from_class e rest =
        let one : keep is_class (c ∷ cs) ≡ c ∷ keep is_class cs = ground arith in
        let same : keep is_claim (c ∷ cs) ≡ keep is_claim cs = ground arith in
        let h = subst (All Q) one hc in (h.0, rest h.1 (subst (All Q) same hl))
    go from_claim e rest =
        let one : keep is_claim (c ∷ cs) ≡ c ∷ keep is_claim cs = ground arith in
        let same : keep is_class (c ∷ cs) ≡ keep is_class cs = ground arith in
        let h = subst (All Q) one hl in (h.0, rest (subst (All Q) same hc) h.1)
    go (other_source s) e rest = absurd (ground arith)

module _ {P : Type 0} (decode : Text → Outcome P) (driver_name : Text) where
  -- If configs are returned, then all that were given have a known source and opaque parameters,
  -- and the result is the decoded parameters for this driver: those of the class before those of
  -- the claim, in their order, each with its requests and an address of its own.
  pub get_opaque_device_configs_sound :
      (possible : List DeviceConfiguration) (out : List (OpaqueDeviceConfig P))
      → get_opaque_device_configs decode driver_name possible ≡ ok out
      → Decoded decode 0 (own_in_order driver_name possible) out
        × All HasSource possible
        × All HasOpaque possible
  unfolding get_opaque_device_configs
  get_opaque_device_configs_sound possible out h =
      let ((xs, ys), e, rest) = >>=-eq-ok (split_sources possible [] []) _ h in
      let (xs_eq, ys_eq, known) = split_sources_sound possible [] [] xs ys e in
      let (ds, shape, decoded, opaque) =
        decode_all_sound decode driver_name (xs ++ ys) 0 [] out rest in
      let sorted : xs ++ ys ≡ keep is_class possible ++ keep is_claim possible =
        ap₂ ◌++◌ xs_eq ys_eq in
      let every : All HasOpaque (keep is_class possible ++ keep is_claim possible) =
        subst (All HasOpaque) sorted opaque in
      (
        subst₂ (Decoded decode 0)
            (ap (own_parameters driver_name) sorted
              ∙ own_parameters-append driver_name (keep is_class possible) (keep is_claim possible))
            (sym shape) decoded,
        known,
        All-of_sources HasOpaque possible known
            (All-append_left HasOpaque (keep is_class possible) _ every)
            (All-append_right HasOpaque (keep is_class possible) _ every),
      )
