-- ===== src/Common/Lists.antt =====
-- Lists measured and cut by native numbers, under the library's names, and predicates on lists.
use Prim.Native.Nat.{ℕ, zero, suc, ◌+◌}
use mathlib.Core.Path.{◌≡◌, refl, ap}
use mathlib.Core.Logic.{◌⊎◌, inl, inr}
use mathlib.Core.Bool.{Bool, true, false}
use mathlib.Core.List.{List, [], ◌∷◌, ◌++◌, map, reverse, reverse-cons}
use native.Mathlib.Omega.{arith}
use dra_example_driver.Common.Logic.{if◌then◌else◌, Bool-cases}

module _ {ℓ} {A : Type ℓ} where
  abbrev pub length : List A → ℕ
  length [] = 0
  length (x ∷ xs) = suc (length xs)

  abbrev pub take : ℕ → List A → List A
  take zero xs = []
  take (suc n) [] = []
  take (suc n) (x ∷ xs) = x ∷ take n xs

  abbrev pub drop : ℕ → List A → List A
  drop zero xs = xs
  drop (suc n) [] = []
  drop (suc n) (x ∷ xs) = drop n xs

  -- The elements that pass a Boolean test, in order.
  abbrev pub keep : (A → Bool) → List A → List A
  keep p [] = []
  keep p (x ∷ xs) = if p x then x ∷ keep p xs else keep p xs

  abbrev pub any : (A → Bool) → List A → Bool
  any p [] = false
  any p (x ∷ xs) = if p x then true else any p xs

  abbrev pub All {κ} : (A → Type κ) → List A → Type κ
  All P [] = Unit
  All P (x ∷ xs) = P x × All P xs

  pub length-append : (xs ys : List A) → length (xs ++ ys) ≡ length xs + length ys
  length-append [] ys = omega arith
  length-append (x ∷ xs) ys = omega (arith, length-append xs ys)

  pub take-length-append : (xs ys : List A) → take (length xs) (xs ++ ys) ≡ xs
  take-length-append [] ys = refl
  take-length-append (x ∷ xs) ys = ap (λ zs. x ∷ zs) (take-length-append xs ys)

  pub drop-length-append : (xs ys : List A) → drop (length xs) (xs ++ ys) ≡ ys
  drop-length-append [] ys = refl
  drop-length-append (x ∷ xs) ys = drop-length-append xs ys

  pub keep-append : (p : A → Bool) (xs ys : List A) → keep p (xs ++ ys) ≡ keep p xs ++ keep p ys
  keep-append p [] ys = refl
  keep-append p (x ∷ xs) ys = ground (arith, keep-append p xs ys)

  pub any-append-true :
      (p : A → Bool) (xs : List A) (x : A) → p x ≡ true → any p (xs ++ x ∷ []) ≡ true
  any-append-true p [] x h = ground arith
  any-append-true p (y ∷ xs) x h = ground (arith, any-append-true p xs x h)

  pub All-append_left {κ} : (P : A → Type κ) (xs ys : List A) → All P (xs ++ ys) → All P xs
  All-append_left P [] ys h = tt
  All-append_left P (x ∷ xs) ys (h, hs) = (h, All-append_left P xs ys hs)

  pub All-append_right {κ} : (P : A → Type κ) (xs ys : List A) → All P (xs ++ ys) → All P ys
  All-append_right P [] ys h = h
  All-append_right P (x ∷ xs) ys (h, hs) = All-append_right P xs ys hs

  pub All-append {κ} : (P : A → Type κ) (xs ys : List A) → All P xs → All P ys → All P (xs ++ ys)
  All-append P [] ys _ hy = hy
  All-append P (x ∷ xs) ys (h, hs) hy = (h, All-append P xs ys hs hy)

  pub All-every {κ} : {P : A → Type κ} → ((x : A) → P x) → (xs : List A) → All P xs
  All-every f [] = tt
  All-every f (x ∷ xs) = (f x, All-every f xs)

  pub All-weaken {κ μ} :
      {P : A → Type κ} {Q : A → Type μ}
      → ((x : A) → P x → Q x)
      → (xs : List A) → All P xs
      → All Q xs
  All-weaken f [] _ = tt
  All-weaken f (x ∷ xs) (h, hs) = (f x h, All-weaken f xs hs)

  pub All-reverse {κ} : (P : A → Type κ) (xs : List A) → All P xs → All P (reverse xs)
  All-reverse P [] _ = tt
  All-reverse P (x ∷ xs) (h, hs) =
      rw (reverse-cons x xs) (All-append P (reverse xs) (x ∷ []) (All-reverse P xs hs) (h, tt))

  pub All-keep {κ} : (P : A → Type κ) (p : A → Bool) (xs : List A) → All P xs → All P (keep p xs)
  All-keep P p [] _ = tt
  All-keep P p (x ∷ xs) (h, hs) = elim (Bool-cases (p x)) [
    | inl passes ↦ rw passes (h, All-keep P p xs hs)
    | inr fails ↦ rw fails (All-keep P p xs hs)
  ]

  -- Some element has the property.
  abbrev pub Exists : (A → Type 0) → List A → Type 0
  Exists P [] = ⊥
  Exists P (x ∷ xs) = P x ⊎ Exists P xs

pub All-map :
    {A B : Type 0} (Q : B → Type 0) (f : A → B) (xs : List A)
    → ((x : A) → Q (f x))
    → All Q (map f xs)
All-map Q f [] h = tt
All-map Q f (x ∷ xs) h = (h x, All-map Q f xs h)
