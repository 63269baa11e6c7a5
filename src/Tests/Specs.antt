-- ===== src/Tests/Specs.antt =====
-- The theorem on CDI specs after a sequence of calls, at a concrete one.
use dra_example_driver.Common.{
  ◌≡◌, ◌≢◌, refl, sym, ◌∙◌, ap, Bool, true, false, Bool-cases, inl, inr, not, any, keep, [], ◌∷◌,
  ◌++◌, drop, length, drop-length-append, Text, codes, ◌==◌, nat_eq, list_eq, arith,
}
use dra_example_driver.Common.Dict.{Dict, insert}
use dra_example_driver.Failure.{ok-inj}
use dra_example_driver.Api.{Spec}
use dra_example_driver.Cdi.ClaimSpec.{spec_name}
use dra_example_driver.Checkpoint.{new_checkpoint, add_claim_to_checkpoint}
use dra_example_driver.Checkpoint.Claims.{==-eq, ==-refl}
use dra_example_driver.History.Specs.{HoldsSpecs}
use dra_example_driver.History.Backed.{Reach-Present}
use dra_example_driver.Tests.Calls.{toy_codec, both_calls, prepared_has}
use dra_example_driver.Tests.Setup.{toy_host, state, claim}
use dra_example_driver.Tests.Runs.{runs, prepared_world}
use mathlib.Core.Path.{subst}

abbrev listed : Text → Dict Text Spec → Bool
listed name k = any (λ e. name == e.0) k

listed-insert_self :
    (name : Text) (spec : Spec) (k : Dict Text Spec) → listed name (insert name spec k) ≡ true
unfolding insert
listed-insert_self name spec [] = ground (arith, ==-refl name)
listed-insert_self name spec ((other, old) ∷ k) =
    ground (arith, ==-refl name, listed-insert_self name spec k)

listed-insert :
    (name other : Text) (spec : Spec) (k : Dict Text Spec)
    → listed other k ≡ true
    → listed other (insert name spec k) ≡ true
unfolding insert
listed-insert name other spec [] h = ground arith
listed-insert name other spec ((first, old) ∷ k) h =
    ground (arith, ==-eq name first, listed-insert name other spec k)

listed-keep :
    (name other : Text) (k : Dict Text Spec)
    → name ≢ other
    → listed other k ≡ true
    → listed other (keep (λ e. not (e.0 == name)) k) ≡ true
listed-keep name other [] differ h = h
listed-keep name other ((first, old) ∷ k) differ h = elim (Bool-cases (other == first)) [
  | inl mine ↦
      let stays : (first == name) ≡ false = elim (Bool-cases (first == name)) [
        | inl gone ↦ absurd (differ (sym (==-eq other first mine ∙ ==-eq first name gone)))
        | inr stays ↦ stays
      ] in
      rw (stays, mine) refl
  | inr another ↦
      let rest = listed-keep name other k differ (rw another at h) in
      elim (Bool-cases (first == name)) [
        | inl gone ↦ rw gone rest
        | inr stays ↦ rw (stays, another) rest
      ]
]

append_cancel : (xs ys zs : Text) → xs ++ ys ≡ xs ++ zs → ys ≡ zs
append_cancel xs ys zs e =
    sym (drop-length-append xs ys) ∙ ap (drop (length xs)) e ∙ drop-length-append xs zs

abbrev toy_specs : HoldsSpecs toy_host
toy_specs = record {
  has_spec = listed;
  write_adds = λ spec name k k' e.
      subst (λ x. listed name x ≡ true) (ok-inj e) (listed-insert_self name spec k);
  write_keeps = λ spec name other k k' e h.
      subst (λ x. listed other x ≡ true) (ok-inj e) (listed-insert name other spec k h);
  remove_keeps = λ name other k k' e differ h.
      subst (λ x. listed other x ≡ true) (ok-inj e) (listed-keep name other k differ h);
  name_determines = λ vendor class a b e.
      append_cancel (codes "_") a b
        (append_cancel class _ _ (append_cancel (codes "-") _ _ (append_cancel vendor _ _ e)));
}

Reach-Present_example : listed (spec_name toy_host state.cdi claim.uid) prepared_world.cache ≡ true
Reach-Present_example =
    Reach-Present toy_host toy_codec state toy_specs claim.uid
      (add_claim_to_checkpoint claim new_checkpoint) refl both_calls (tt, tt) runs.6 prepared_has
