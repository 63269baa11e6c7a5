-- ===== src/Naming/Strings.antt =====
-- Go's `strings.HasPrefix`, `TrimPrefix`, `Split` and `Join`, for a separator of one byte.
use dra_example_driver.Common.{
  ℕ, ◌≡◌, refl, sym, ◌∙◌, ◌≢◌, ap, Bool, true, false, List, [], ◌∷◌, ◌++◌, append-nil, append_assoc,
  Text, nat_eqb, arith, inl, inr, Bool-cases, if◌then◌else◌, All, All-append, All-append_left,
  All-append_right,
}

unfoldable pub has_prefix : Text → Text → Bool
has_prefix s [] = true
has_prefix [] (p ∷ ps) = false
has_prefix (c ∷ s) (p ∷ ps) = if nat_eqb c p then has_prefix s ps else false

abbrev drop_prefix : Text → Text → Text
drop_prefix s [] = s
drop_prefix [] (p ∷ ps) = []
drop_prefix (c ∷ s) (p ∷ ps) = drop_prefix s ps

-- The text itself, if it lacks the prefix.
unfoldable pub trim_prefix : Text → Text → Text
unfolding has_prefix
trim_prefix s p = if has_prefix s p then drop_prefix s p else s

abbrev onto_first : ℕ → List Text → List Text
onto_first c [] = (c ∷ []) ∷ []
onto_first c (p ∷ ps) = (c ∷ p) ∷ ps

-- There is always at least one part.
unfoldable pub split : ℕ → Text → List Text
split sep [] = [] ∷ []
split sep (c ∷ s) = let rest = split sep s in if nat_eqb c sep then [] ∷ rest else onto_first c rest

abbrev separated : ℕ → List Text → Text
separated sep [] = []
separated sep (p ∷ ps) = (sep ∷ p) ++ separated sep ps

unfoldable pub join : ℕ → List Text → Text
join sep [] = []
join sep (p ∷ ps) = p ++ separated sep ps

-- No byte of the text is the separator.
abbrev pub Lacks : ℕ → Text → Type 0
Lacks sep = All (λ c. c ≢ sep)

pub has_prefix-append : (p s : Text) → has_prefix (p ++ s) p ≡ true
unfolding has_prefix
has_prefix-append [] [] = refl
has_prefix-append [] (c ∷ s) = refl
has_prefix-append (c ∷ p) s = ground (arith, has_prefix-append p s)

drop_prefix-append : (p s : Text) → drop_prefix (p ++ s) p ≡ s
drop_prefix-append [] [] = refl
drop_prefix-append [] (c ∷ s) = refl
drop_prefix-append (c ∷ p) s = drop_prefix-append p s

pub trim_prefix-append : (p s : Text) → trim_prefix (p ++ s) p ≡ s
unfolding trim_prefix
trim_prefix-append p s = rw (has_prefix-append p s) (drop_prefix-append p s)

append-drop_prefix : (s p : Text) → has_prefix s p ≡ true → p ++ drop_prefix s p ≡ s
unfolding has_prefix
append-drop_prefix [] [] h = refl
append-drop_prefix (c ∷ s) [] h = refl
append-drop_prefix [] (q ∷ p) h = cc
append-drop_prefix (c ∷ s) (q ∷ p) h = ground (arith, append-drop_prefix s p)

pub append-trim_prefix : (s p : Text) → has_prefix s p ≡ true → p ++ trim_prefix s p ≡ s
unfolding trim_prefix
append-trim_prefix s p h = rw h (append-drop_prefix s p h)

module _ (sep : ℕ) where
  separated-append :
      (ps qs : List Text) → separated sep (ps ++ qs) ≡ separated sep ps ++ separated sep qs
  separated-append [] qs = refl
  separated-append (p ∷ ps) qs = simp (separated-append ps qs, append_assoc)

  split-append_part :
      (p rest : Text) (q : Text) (qs : List Text)
      → Lacks sep p
      → split sep rest ≡ q ∷ qs
      → split sep (p ++ rest) ≡ (p ++ q) ∷ qs
  unfolding split
  split-append_part [] rest q qs lacks h = h
  split-append_part (c ∷ p) rest q qs (hc, hp) h =
      ground (arith, split-append_part p rest q qs hp h)

  split-separated : (ps : List Text) → All (Lacks sep) ps → split sep (separated sep ps) ≡ [] ∷ ps
  unfolding split
  split-separated [] _ = refl
  split-separated (p ∷ ps) (hp, hps) = ground (
    arith,
    split-append_part p (separated sep ps) [] ps hp (split-separated ps hps),
    append-nil p,
  )

  pub split-join :
      (p : Text) (ps : List Text)
      → All (Lacks sep) (p ∷ ps)
      → split sep (join sep (p ∷ ps)) ≡ p ∷ ps
  unfolding join
  split-join p ps (hp, hps) =
      split-append_part p (separated sep ps) [] ps hp (split-separated ps hps)
      ∙ ap (λ q. q ∷ ps) (append-nil p)

  pub split-join_ne : (ps : List Text) → ps ≢ [] → All (Lacks sep) ps → split sep (join sep ps) ≡ ps
  split-join_ne [] h _ = absurd (h refl)
  split-join_ne (p ∷ ps) _ lacks = split-join p ps lacks

  join-onto_first : (c : ℕ) (ps : List Text) → join sep (onto_first c ps) ≡ c ∷ join sep ps
  unfolding join
  join-onto_first c [] = refl
  join-onto_first c (p ∷ ps) = refl

  pub split-ne-nil : (s : Text) → split sep s ≢ []
  unfolding split
  split-ne-nil [] h = cc
  split-ne-nil (c ∷ s) h = absurd (ground (arith, split-ne-nil s))

  join-cons : (p : Text) (ps : List Text) → ps ≢ [] → join sep (p ∷ ps) ≡ p ++ sep ∷ join sep ps
  unfolding join
  join-cons p [] h = absurd (h refl)
  join-cons p (q ∷ ps) h = refl

  pub join-split : (s : Text) → join sep (split sep s) ≡ s
  unfolding split
  join-split [] = unfold join in refl
  join-split (c ∷ s) = ground (
    arith,
    join-split s,
    join-onto_first c (split sep s),
    join-cons [] (split sep s) (split-ne-nil s),
  )

  pub join-append :
      (ps : List Text) (q : Text) (qs : List Text)
      → ps ≢ []
      → join sep (ps ++ q ∷ qs) ≡ join sep ps ++ sep ∷ join sep (q ∷ qs)
  unfolding join
  join-append [] q qs h = absurd (h refl)
  join-append (p ∷ ps) q qs _ = rw (separated-append ps (q ∷ qs)) (sym (append_assoc p _ _))

  onto_first-Lacks :
      (c : ℕ) (ps : List Text) → c ≢ sep → All (Lacks sep) ps → All (Lacks sep) (onto_first c ps)
  onto_first-Lacks c [] h _ = ((h, tt), tt)
  onto_first-Lacks c (p ∷ ps) h (hp, hps) = ((h, hp), hps)

  -- No part of a text that is split holds the separator.
  pub All-Lacks-split : (s : Text) → All (Lacks sep) (split sep s)
  unfolding split
  All-Lacks-split [] = (tt, tt)
  All-Lacks-split (c ∷ s) = elim (Bool-cases (nat_eqb c sep)) [
    | inl same ↦ rw same (tt, All-Lacks-split s)
    | inr other ↦
        rw other (onto_first-Lacks c (split sep s) (λ e. absurd (ground arith)) (All-Lacks-split s))
  ]

  -- A text without the separator is its only part.
  pub split-Lacks : (s : Text) → Lacks sep s → split sep s ≡ s ∷ []
  unfolding split
  split-Lacks [] _ = refl
  split-Lacks (c ∷ s) (h, hs) = ground (arith, split-Lacks s hs)

module _ (P : ℕ → Type 0) (sep : ℕ) where
  All-separated_inv : (ps : List Text) → All P (separated sep ps) → All (All P) ps
  All-separated_inv [] _ = tt
  All-separated_inv (p ∷ ps) (_, h) = (
    All-append_left P p (separated sep ps) h,
    All-separated_inv ps (All-append_right P p (separated sep ps) h),
  )

  -- What holds of all bytes of a joined text holds of the bytes of its parts, and back.
  pub All-join_inv : (ps : List Text) → All P (join sep ps) → All (All P) ps
  unfolding join
  All-join_inv [] _ = tt
  All-join_inv (p ∷ ps) h = (
    All-append_left P p (separated sep ps) h,
    All-separated_inv ps (All-append_right P p (separated sep ps) h),
  )

  All-separated : P sep → (ps : List Text) → All (All P) ps → All P (separated sep ps)
  All-separated s [] _ = tt
  All-separated s (p ∷ ps) (h, hs) =
      (s, All-append P p (separated sep ps) h (All-separated s ps hs))

  pub All-join : P sep → (ps : List Text) → All (All P) ps → All P (join sep ps)
  unfolding join
  All-join s [] _ = tt
  All-join s (p ∷ ps) (h, hs) = All-append P p (separated sep ps) h (All-separated s ps hs)
