-- ===== src/Startup/Decimal.antt =====
-- `%d` on numbers that are not negative, and that different numbers are printed differently.
use Prim.Native.Nat.{zero, suc, ◌/◌, ◌%◌, ◌*◌}
use dra_example_driver.Common.{
  ℕ, ◌+◌, ◌-◌, ◌<◌, ◌≡◌, refl, sym, ◌∙◌, ap, inl, inr, Bool-cases, if◌then◌else◌, [], ◌∷◌, ◌++◌,
  Text, ltb, arith,
}

-- The last digits of a number, on fuel; what is left of the number when the fuel is used up is lost.
unfoldable digits : ℕ → ℕ → Text
digits zero n = []
digits (suc fuel) n =
    let front = digits fuel (n / 10) in
    if ltb n 10 then (b'0' + n) ∷ [] else front ++ (b'0' + n % 10) ∷ []

-- A number has fewer digits than its value and one.
unfoldable pub show_decimal : ℕ → Text
unfolding digits
show_decimal n = digits (suc n) n

-- The number that digits stand for, with the value of those before.
value : ℕ → Text → ℕ
value v [] = v
value v (c ∷ s) = value (v * 10 + (c - b'0')) s

value-concat : (v : ℕ) (s : Text) (c : ℕ) → value v (s ++ c ∷ []) ≡ value v s * 10 + (c - b'0')
unfolding value
value-concat v [] c = refl
value-concat v (d ∷ s) c = value-concat (v * 10 + (d - b'0')) s c

value-digits : (fuel n : ℕ) → n < fuel → value 0 (digits fuel n) ≡ n
unfolding value digits
value-digits zero n h = absurd (omega arith)
value-digits (suc fuel) n h = elim (Bool-cases (ltb n 10)) [
  | inl small ↦ rw small (ground arith)
  | inr large ↦
      let ih = value-digits fuel (n / 10) (ground arith) in
      rw (large, value-concat 0 (digits fuel (n / 10)) (b'0' + n % 10), ih) (ground arith)
]

pub show_decimal-injective : (m n : ℕ) → show_decimal m ≡ show_decimal n → m ≡ n
unfolding show_decimal
show_decimal-injective m n e =
    sym (value-digits (suc m) m (omega arith))
    ∙ ap (value 0) e
    ∙ value-digits (suc n) n (omega arith)
