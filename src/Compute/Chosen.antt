-- ===== src/Compute/Chosen.antt =====
-- The results that are grouped under a configuration are those it is selected for.
use mathlib.Core.Logic.{∥∥₁_elim}
use mathlib.Core.List.{Perm, Permᴰ}
use mathlib.Core.Bool.{Bool-set}
use dra_example_driver.Common.{
  ◌≡◌, refl, sym, ◌∙◌, ap, inl, inr, Bool, true, false, ◌&&◌, Option, none, some, List, [], ◌∷◌,
  ◌++◌, Text, ◌==◌, arith, Bool-cases, Option-cases, nat_eq, list_eq,
}
use dra_example_driver.Common.Dict.{Dict, lookup}
use dra_example_driver.Checkpoint.Claims.{==-refl}
use dra_example_driver.Failure.{ok, >>=-eq-ok}
use dra_example_driver.Api.{DeviceResult}
use dra_example_driver.Profile.{Object}
use dra_example_driver.Config.{OpaqueDeviceConfig, select}
use dra_example_driver.Devices.{PoolDevice}
use dra_example_driver.Compute.{Group, same_object, add_result, place, group_results}

pub and_lem : (u v : Bool) → (u && v) ≡ true → (u ≡ true) × (v ≡ true)
and_lem true v h = (refl, h)
and_lem false v h = absurd cc

module _ {ℓ} {A : Type ℓ} where
  abbrev pub every : (A → Bool) → List A → Bool
  every p [] = true
  every p (x ∷ xs) = p x && every p xs

  every-append_one :
      (p : A → Bool) (xs : List A) (x : A)
      → every p xs ≡ true
      → p x ≡ true
      → every p (xs ++ x ∷ []) ≡ true
  every-append_one p [] x _ h = rw h refl
  every-append_one p (y ∷ ys) x hs h = elim (Bool-cases (p y)) [
    | inl first ↦ rw first (every-append_one p ys x (ap (λ b. b && every p ys) (sym first) ∙ hs) h)
    | inr fails ↦ absurd (ground arith)
  ]

  every-Permᴰ : (p : A → Bool) {xs ys : List A} → Permᴰ xs ys → every p xs ≡ every p ys
  every-Permᴰ p Permᴰ.nil = refl
  every-Permᴰ p (Permᴰ.cons {a} {b} e d) = rw (e, every-Permᴰ p d) refl
  every-Permᴰ p (Permᴰ.swap {a} {b} {a'} {b'} {l} e e') =
      rw (← e, ← e') (swap_lem (p a) (p b) (every p l))
    where
      swap_lem : (u v w : Bool) → (u && (v && w)) ≡ (v && (u && w))
      swap_lem true true w = refl
      swap_lem true false w = refl
      swap_lem false true w = refl
      swap_lem false false w = refl
  every-Permᴰ p (Permᴰ.trans d d') = every-Permᴰ p d ∙ every-Permᴰ p d'

  pub every-perm : (p : A → Bool) {xs ys : List A} → Perm xs ys → every p xs ≡ every p ys
  every-perm p d = ∥∥₁_elim d (Bool-set _ _) (every-Permᴰ p)

module _ {P : Type 0} where
  same_object_refl : (c : Option (Object P)) → same_object c c ≡ true
  same_object_refl none = refl
  same_object_refl (some a) = ==-refl a.address

  -- Whether the result is one of this driver's, and the config is the one selected for its request.
  abbrev pub chosen_for :
      Text → List (OpaqueDeviceConfig P) → Option (Object P) → DeviceResult → Bool
  chosen_for driver_name configs c r =
      (r.driver == driver_name)
      && elim (select r.request configs) [ none ↦ false | some o ↦ same_object o.config c ]

  abbrev pub group_chosen : Text → List (OpaqueDeviceConfig P) → Group P → Bool
  group_chosen driver_name configs (c, rs) = every (chosen_for driver_name configs c) rs

  add_result_chosen :
      (driver_name : Text) (configs : List (OpaqueDeviceConfig P)) (c : Option (Object P))
      (r : DeviceResult) (gs : List (Group P))
      → ((d : Option (Object P))
          → same_object c d ≡ true
          → chosen_for driver_name configs d r ≡ true)
      → every (group_chosen driver_name configs) gs ≡ true
      → every (group_chosen driver_name configs) (add_result c r gs) ≡ true
  unfolding add_result
  add_result_chosen driver_name configs c r [] same _ = rw (same c (same_object_refl c)) refl
  add_result_chosen driver_name configs c r ((d, rs) ∷ gs) same h =
      let (first, rest) = and_lem _ (every (group_chosen driver_name configs) gs) h in
      elim (Bool-cases (same_object c d)) [
        | inl equal ↦
            rw
              (equal, every-append_one (chosen_for driver_name configs d) rs r first (same d equal))
              rest
        | inr other ↦ rw (other, first) (add_result_chosen driver_name configs c r gs same rest)
      ]

  place_chosen :
      (driver_name : Text) (allocatable : Dict Text PoolDevice)
      (configs : List (OpaqueDeviceConfig P)) (r : DeviceResult) (gs gs' : List (Group P))
      → place driver_name allocatable configs r gs ≡ ok gs'
      → every (group_chosen driver_name configs) gs ≡ true
      → every (group_chosen driver_name configs) gs' ≡ true
  place_chosen driver_name allocatable configs r gs gs' e h =
      elim (Bool-cases (r.driver == driver_name)) [
        | inr foreign ↦ let same : gs' ≡ gs = ground arith in rw same h
        | inl own ↦ elim (Option-cases (lookup r.device allocatable)) [
          | inl missing ↦ absurd (ground arith)
          | inr (device, found) ↦ elim (Option-cases (select r.request configs)) [
            | inl unselected ↦ let same : gs' ≡ gs = ground arith in rw same h
            | inr (o, selected) ↦
                let added : gs' ≡ add_result o.config r gs = ground arith in
                rw added (
                  add_result_chosen driver_name configs o.config r gs
                    (λ d equal. rw (own, selected) equal) h)
          ]
        ]
      ]

  pub group_results_chosen :
      (driver_name : Text) (allocatable : Dict Text PoolDevice)
      (configs : List (OpaqueDeviceConfig P)) (rs : List DeviceResult) (gs gs' : List (Group P))
      → group_results driver_name allocatable configs rs gs ≡ ok gs'
      → every (group_chosen driver_name configs) gs ≡ true
      → every (group_chosen driver_name configs) gs' ≡ true
  unfolding group_results
  group_results_chosen driver_name allocatable configs [] gs gs' e h =
      let same : gs' ≡ gs = cc in rw same h
  group_results_chosen driver_name allocatable configs (r ∷ rs) gs gs' e h =
      let (gs₁, placed, rest) = >>=-eq-ok (place driver_name allocatable configs r gs) _ e in
      group_results_chosen driver_name allocatable configs rs gs₁ gs' rest
        (place_chosen driver_name allocatable configs r gs gs₁ placed h)
