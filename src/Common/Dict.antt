-- ===== src/Common/Dict.antt =====
-- Go maps as association lists with one entry for each key, in the order of insertion.
use mathlib.Core.Path.{◌≡◌, refl, sym, ◌∙◌}
use mathlib.Core.Logic.{◌⊎◌, inl, inr}
use mathlib.Core.Bool.{Bool, true, false}
use mathlib.Core.Option.{Option, none, some}
use mathlib.Core.List.{List, [], ◌∷◌}
use native.Mathlib.Omega.{arith}
use dra_example_driver.Common.Logic.{if◌then◌else◌}
use dra_example_driver.Common.Equality.{Eq, ◌==◌}

abbrev pub Dict {ℓ κ} : Type ℓ → Type κ → Type (ℓ ⊔ κ)
Dict K V = List (K × V)

module _ {ℓ κ} {K : Type ℓ} {V : Type κ} ⦃e : Eq K⦄ where
  unfoldable pub lookup : K → Dict K V → Option V
  lookup k [] = none
  lookup k ((j, v) ∷ d) = if k == j then some v else lookup k d

  -- `m[k] = v`
  unfoldable pub insert : K → V → Dict K V → Dict K V
  insert k v [] = (k, v) ∷ []
  insert k v ((j, w) ∷ d) = if k == j then (k, v) ∷ d else (j, w) ∷ insert k v d

  pub lookup-insert :
      (j k : K) (v : V) (d : Dict K V)
      → lookup j (insert k v d) ≡ (if j == k then some v else lookup j d)
  unfolding insert lookup
  lookup-insert j k v [] = refl
  lookup-insert j k v (_ ∷ d) = ground (arith, lookup-insert j k v d)

  pub lookup-insert-some :
      (j k : K) (v x : V) (d : Dict K V)
      → lookup j (insert k v d) ≡ some x
      → (((j == k) ≡ true) × (v ≡ x)) ⊎ (lookup j d ≡ some x)
  lookup-insert-some j k v x d h = go (j == k) (sym (lookup-insert j k v d) ∙ h)
    where
      go :
          (b : Bool)
          → (if b then some v else lookup j d) ≡ some x
          → ((b ≡ true) × (v ≡ x)) ⊎ (lookup j d ≡ some x)
      go true q = inl (refl, cc)
      go false q = inr q

  pub lookup-insert-none :
      (j k : K) (v : V) (d : Dict K V)
      → lookup j (insert k v d) ≡ none
      → ((j == k) ≡ false) × (lookup j d ≡ none)
  lookup-insert-none j k v d h = go (j == k) (sym (lookup-insert j k v d) ∙ h)
    where
      go :
          (b : Bool) → (if b then some v else lookup j d) ≡ none → (b ≡ false) × (lookup j d ≡ none)
      go true q = absurd cc
      go false q = (refl, q)
