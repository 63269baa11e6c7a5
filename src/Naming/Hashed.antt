-- ===== src/Naming/Hashed.antt =====
-- What `extractStableClaimName` takes for a pod hash: five letters or digits of ASCII.
use dra_example_driver.Common.{
  ℕ, ◌≤◌, ◌≡◌, refl, sym, ◌∙◌, ◌⊎◌, inl, inr, Bool, true, false, ◌&&◌, ◌||◌, Bool-cases, [], ◌∷◌,
  Text, leb, length, All, arith,
}
use mathlib.Core.Bool.{true≢false}
use dra_example_driver.Naming.{is_alphanumeric_byte, is_alphanumeric, is_pod_hash}

abbrev pub Between : ℕ → ℕ → ℕ → Type 0
Between low high c = (low ≤ c) × (c ≤ high)

abbrev pub LetterOrDigit : ℕ → Type 0
LetterOrDigit c = Between b'a' b'z' c ⊎ (Between b'A' b'Z' c ⊎ Between b'0' b'9' c)

abbrev pub Hashed : Text → Type 0
Hashed p = (length p ≡ 5) × All LetterOrDigit p

or_cases : (a b : Bool) → (a || b) ≡ true → (a ≡ true) ⊎ (b ≡ true)
or_cases true b h = inl refl
or_cases false b h = inr h

between : (low high c : ℕ) → (leb low c && leb c high) ≡ true → Between low high c
between low high c h = (ground arith, ground arith)

byte_LetterOrDigit : (c : ℕ) → is_alphanumeric_byte c ≡ true → LetterOrDigit c
byte_LetterOrDigit c h = elim (or_cases _ _ h) [
  | inl letter ↦ elim (or_cases _ _ letter) [
    | inl lower ↦ inl (between b'a' b'z' c lower)
    | inr upper ↦ inr (inl (between b'A' b'Z' c upper))
  ]
  | inr digit ↦ inr (inr (between b'0' b'9' c digit))
]

alphanumeric_byte_lem : (c : ℕ) → LetterOrDigit c → is_alphanumeric_byte c ≡ true
alphanumeric_byte_lem c (inl (low, high)) = ground arith
alphanumeric_byte_lem c (inr (inl (low, high))) = ground arith
alphanumeric_byte_lem c (inr (inr (low, high))) = ground arith

text_LetterOrDigit : (s : Text) → is_alphanumeric s ≡ true → All LetterOrDigit s
unfolding is_alphanumeric
text_LetterOrDigit [] h = tt
text_LetterOrDigit (c ∷ s) h = elim (Bool-cases (is_alphanumeric_byte c)) [
  | inl good ↦ (byte_LetterOrDigit c good, text_LetterOrDigit s (rw good at h))
  | inr bad ↦ absurd (true≢false (sym h ∙ rw bad refl))
]

alphanumeric_text_lem : (s : Text) → All LetterOrDigit s → is_alphanumeric s ≡ true
unfolding is_alphanumeric
alphanumeric_text_lem [] _ = refl
alphanumeric_text_lem (c ∷ s) (h, hs) = rw (alphanumeric_byte_lem c h) (alphanumeric_text_lem s hs)

pub is_pod_hash-Hashed : (p : Text) → is_pod_hash p ≡ true → Hashed p
is_pod_hash-Hashed p h =
    let letters : is_alphanumeric p ≡ true = ground arith in
    (ground arith, text_LetterOrDigit p letters)

pub not_Hashed : (p : Text) → is_pod_hash p ≡ false → ¬ Hashed p
not_Hashed p h (five, letters) = let good = alphanumeric_text_lem p letters in absurd (ground arith)
