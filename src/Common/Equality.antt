-- ===== src/Common/Equality.antt =====
-- Go's `==` on the comparable types that the driver uses, and `slices.Contains`.
use Prim.Native.Nat.{ℕ}
use Prim.Native.Char.{code}
use Prim.Native.String.{String}
use mathlib.Core.Path.{refl, ap, ap₂}
use mathlib.Core.Logic.{ite, dite}
use mathlib.Core.Bool.{Bool, true, false, ◌||◌}
use mathlib.Core.Option.{Option, none, some, none-ne-some, some-ne-none, some-injective}
use mathlib.Core.List.{List, [], ◌∷◌}
use native.Mathlib.Decide.{ℕ_discrete}

pub record Eq {ℓ} (A : Type ℓ) : Type ℓ where
  pub dec : Discrete A

instance unfoldable pub nat_eq : Eq ℕ
unfolding ℕ_discrete
nat_eq = record { dec = ℕ_discrete }

module _ {ℓ} {A : Type ℓ} ⦃e : Eq A⦄ where
  infix 50 ◌==◌
  abbrev pub ◌==◌ : A → A → Bool
  a == b = ite (e.dec a b) true false

  abbrev pub contains : List A → A → Bool
  contains [] a = false
  contains (x ∷ xs) a = a == x || contains xs a

  list_dec : Discrete (List A)
  list_dec [] [] = yes refl
  list_dec [] (y ∷ ys) = no (λ p. cc)
  list_dec (x ∷ xs) [] = no (λ p. cc)
  list_dec (x ∷ xs) (y ∷ ys) =
      let rest = list_dec xs ys in
      elim (e.dec x y) [
        | yes p ↦ elim rest [ yes q ↦ yes (ap₂ ◌∷◌ p q) | no n ↦ no (λ r. n (cc)) ]
        | no n ↦ no (λ r. n (cc))
      ]

  instance unfoldable pub list_eq : Eq (List A)
  unfolding list_dec
  list_eq = record { dec = list_dec }

  option_dec : Discrete (Option A)
  option_dec none none = yes refl
  option_dec none (some b) = no (none-ne-some b)
  option_dec (some a) none = no (some-ne-none a)
  option_dec (some a) (some b) =
      dite (e.dec a b) (λ p. yes (ap some p)) (λ n. no (λ p. n (some-injective a b p)))

  instance unfoldable pub option_eq : Eq (Option A)
  unfolding option_dec
  option_eq = record { dec = option_dec }

-- A Go string is a sequence of bytes.
abbrev pub Text : Type 0
Text = List ℕ

-- The bytes of an ASCII literal.
abbrev pub codes : String → Text
codes String.[] = []
codes (String.◌∷◌ c s) = code c ∷ codes s
