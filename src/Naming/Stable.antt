-- ===== src/Naming/Stable.antt =====
-- What `extractStableClaimName` returns: which names it shortens, and what of them is left.
use mathlib.Core.List.{cons-ne-nil, concat-ne-nil}
use dra_example_driver.Common.{
  ℕ, ◌+◌, ◌-◌, ◌≤◌, ◌<◌, ◌≡◌, refl, sym, ◌∙◌, ap, ◌≢◌, ◌⊎◌, inl, inr, true, false, Option, none,
  some, List, [], ◌∷◌, ◌++◌, Text, codes, ltb, length, take, All, All-weaken, arith, length-append,
  take-length-append, Bool-cases,
}
use mathlib.Core.Path.{subst}
use dra_example_driver.Naming.VirtLauncher.{
  virt_launcher_name, stable_name, take_init, drop_one_more, pod_hash_index_at,
}
use dra_example_driver.Naming.Hashed.{Hashed, is_pod_hash-Hashed, not_Hashed}
use dra_example_driver.Naming.{
  virt_launcher_prefix, is_pod_hash, pod_hash_index, without_pod_hash, stable_of_parts,
  extract_stable_claim_name,
}
use dra_example_driver.Naming.Strings.{
  has_prefix, trim_prefix, split, join, Lacks, has_prefix-append, trim_prefix-append,
  append-trim_prefix, split-join_ne, join-split, split-ne-nil, All-Lacks-split,
}

-- If a virt-launcher claim has a template name and at least four parts after the prefix, none of which
-- holds a dash, and its pod hash is the first part that looks like one, then its name is cut to the
-- VMI name and the template name: the hashes leave no trace.
pub extract-virt_launcher_name :
    (vmi : List Text) (hash : Text) (template : List Text) (claim_hash : Text)
    → 2 ≤ length vmi + length template
    → template ≢ []
    → All (λ p. is_pod_hash p ≡ false) vmi
    → is_pod_hash hash ≡ true
    → All (Lacks b'-') ((vmi ++ hash ∷ template) ++ claim_hash ∷ [])
    → extract_stable_claim_name (virt_launcher_name vmi hash template claim_hash)
      ≡ stable_name vmi template
unfolding extract_stable_claim_name
extract-virt_launcher_name vmi hash template claim_hash four ne plain h lacks =
    let init : List Text = vmi ++ hash ∷ template in
    let parts : List Text = init ++ claim_hash ∷ [] in
    let enough : ltb (length parts) 4 ≡ false =
      ground (arith, length-append init (claim_hash ∷ []), length-append vmi (hash ∷ template)) in
    rw (
      has_prefix-append virt_launcher_prefix (join b'-' parts),
      trim_prefix-append virt_launcher_prefix (join b'-' parts),
      split-join_ne b'-' parts (concat-ne-nil claim_hash init) lacks,
      enough,
      take_init init claim_hash,
      pod_hash_index_at vmi hash template plain h ne,
      take-length-append vmi (hash ∷ template),
      drop_one_more vmi hash template,
    )

-- What the loop finds among the last `total - i` parts.
abbrev Found : ℕ → List Text → ℕ → Type 0
Found i ps k =
    (vmi : List Text) × (hash : Text) × (template : List Text) × (ps ≡ vmi ++ hash ∷ template)
    × (k ≡ i + length vmi)
    × (is_pod_hash hash ≡ true)
    × All (λ p. is_pod_hash p ≡ false) vmi
    × (template ≢ [])

Found-later :
    (i k : ℕ) (p : Text) (ps : List Text)
    → is_pod_hash p ≡ false
    → Found (i + 1) ps k
    → Found i (p ∷ ps) k
Found-later i k p ps plain (vmi, hash, template, e, at, h, before, ne) =
    (p ∷ vmi, hash, template, ap (λ qs. p ∷ qs) e, omega arith, h, (plain, before), ne)

pod_hash_index-Found :
    (total i k : ℕ) (ps : List Text)
    → i + length ps ≡ total
    → pod_hash_index total i ps ≡ some k
    → Found i ps k
unfolding pod_hash_index
pod_hash_index-Found total i k [] _ h = cc
pod_hash_index-Found total i k (p ∷ []) len h = absurd (ground arith)
pod_hash_index-Found total i k (p ∷ q ∷ ps) len h = elim (Bool-cases (is_pod_hash p)) [
  | inl hash ↦
      let room : ltb (i + 1) total ≡ true = ground arith in
      ([], p, q ∷ ps, refl, ground arith, hash, tt, cons-ne-nil q ps)
  | inr plain ↦
      Found-later i k p (q ∷ ps) plain
        (pod_hash_index-Found total (i + 1) k (q ∷ ps) (omega arith) (rw plain at h))
]

-- No part but the last looks like a pod hash.
abbrev Unhashed : List Text → Type 0
Unhashed ps =
    (front : List Text) × (last : Text) × (ps ≡ front ++ last ∷ [])
    × All (λ p. is_pod_hash p ≡ false) front

Unhashed-later :
    (p : Text) (ps : List Text) → is_pod_hash p ≡ false → Unhashed ps → Unhashed (p ∷ ps)
Unhashed-later p ps plain (front, last, e, before) =
    (p ∷ front, last, ap (λ qs. p ∷ qs) e, (plain, before))

pod_hash_index-Unhashed :
    (total i : ℕ) (p : Text) (ps : List Text)
    → i + length (p ∷ ps) ≡ total
    → pod_hash_index total i (p ∷ ps) ≡ none
    → Unhashed (p ∷ ps)
unfolding pod_hash_index
pod_hash_index-Unhashed total i p [] len h = ([], p, refl, tt)
pod_hash_index-Unhashed total i p (q ∷ ps) len h = elim (Bool-cases (is_pod_hash p)) [
  | inl hash ↦ let room : ltb (i + 1) total ≡ true = ground arith in absurd (ground arith)
  | inr plain ↦
      Unhashed-later p (q ∷ ps) plain
        (pod_hash_index-Unhashed total (i + 1) q ps (omega arith) (rw plain at h))
]

snoc {ℓ} :
    {A : Type ℓ} (x : A) (xs : List A) → (init : List A) × (y : A) × (x ∷ xs ≡ init ++ y ∷ [])
snoc x [] = ([], x, refl)
snoc x (y ∷ ys) = let (init, z, e) = snoc y ys in (x ∷ init, z, ap (λ zs. x ∷ zs) e)

-- How a name that is shortened is built, of at least four parts without a dash, and what is left of it.
abbrev pub Shortened : Text → Text → Type 0
Shortened full stable =
    (vmi : List Text) × (hash : Text) × (template : List Text) × (claim_hash : Text) × (full
      ≡ virt_launcher_name vmi hash template claim_hash)
    × (stable ≡ stable_name vmi template)
    × Hashed hash
    × All (λ p. ¬ Hashed p) vmi
    × (template ≢ [])
    × (2 ≤ length vmi + length template)
    × All (Lacks b'-') ((vmi ++ hash ∷ template) ++ claim_hash ∷ [])

-- How a name that is kept is built: it is not one of virt-launcher, or of less than four parts without a
-- dash, or no part before the last two is a pod hash.
abbrev pub Kept : Text → Type 0
Kept full =
    (has_prefix full (codes "virt-launcher-") ≡ false)
    ⊎ ((parts : List Text) × (full ≡ codes "virt-launcher-" ++ join b'-' parts)
        × All (Lacks b'-') parts
        × ((length parts < 4)
            ⊎ ((front : List Text) × (last : Text) × (claim_hash : Text) × (parts
                  ≡ (front ++ last ∷ []) ++ claim_hash ∷ [])
                × All (λ p. ¬ Hashed p) front)))

-- What becomes of a name.
abbrev pub Cut : Text → Text → Type 0
Cut full stable = ((stable ≡ full) × Kept full) ⊎ Shortened full stable

shorten_parts :
    (full : Text) (init : List Text) (claim_hash : Text)
    → full ≡ virt_launcher_prefix ++ join b'-' (init ++ claim_hash ∷ [])
    → 3 ≤ length init
    → All (Lacks b'-') (init ++ claim_hash ∷ [])
    → (o : Option ℕ) → pod_hash_index (length init) 0 init ≡ o
    → Cut full (without_pod_hash full init o)
shorten_parts full [] claim_hash built four lacks none _ = absurd (omega arith)
shorten_parts full (p ∷ ps) claim_hash built four lacks none e =
    let (front, last, same, before) =
      pod_hash_index-Unhashed (length (p ∷ ps)) 0 p ps (omega arith) e in
    inl (
      refl,
      inr (
        (p ∷ ps) ++ claim_hash ∷ [],
        built,
        lacks,
        inr (
          front,
          last,
          claim_hash,
          ap (λ qs. qs ++ claim_hash ∷ []) same,
          All-weaken not_Hashed front before,
        ),
      ),
    )
shorten_parts full init claim_hash built four lacks (some k) e =
    let (vmi, hash, template, parts, at, h, before, ne) =
      pod_hash_index-Found (length init) 0 k init (omega arith) e in
    let here : k ≡ length vmi = omega arith in
    let many : 2 ≤ length vmi + length template =
      omega (arith, four, ap length parts, length-append vmi (hash ∷ template)) in
    inr (
      vmi,
      hash,
      template,
      claim_hash,
      rw (← parts) built,
      rw (parts, here, take-length-append vmi (hash ∷ template), drop_one_more vmi hash template),
      is_pod_hash-Hashed hash h,
      All-weaken not_Hashed vmi before,
      ne,
      many,
      subst (λ ps. All (Lacks b'-') (ps ++ claim_hash ∷ [])) parts lacks,
    )

shorten :
    (full : Text) (parts : List Text)
    → parts ≢ []
    → full ≡ virt_launcher_prefix ++ join b'-' parts
    → All (Lacks b'-') parts
    → Cut full (stable_of_parts full parts)
shorten full [] ne _ _ = absurd (ne refl)
shorten full (p ∷ ps) _ built lacks = elim (Bool-cases (ltb (length (p ∷ ps)) 4)) [
  | inl few ↦ rw few (inl (refl, inr (p ∷ ps, built, lacks, inl (ground arith))))
  | inr enough ↦
      let (init, claim_hash, e) = snoc p ps in
      let cut : take (length (p ∷ ps) - 1) (p ∷ ps) ≡ init =
        ap (λ zs. take (length zs - 1) zs) e ∙ take_init init claim_hash in
      let four : 3 ≤ length init =
        ground (arith, ap length e, length-append init (claim_hash ∷ [])) in
      rw (enough, cut)
        (shorten_parts full init claim_hash (rw (← e) built) four (subst (All (Lacks b'-')) e lacks)
          (pod_hash_index (length init) 0 init) refl)
]

-- Either a name is kept whole, and then it is not one of virt-launcher, or it has less than four parts
-- after the prefix, or no part before the last two is a pod hash, that is five ASCII letters or digits; or
-- it is a virt-launcher name of at least four parts, none of which holds a dash: the VMI name, no part of
-- which is a pod hash, a pod hash, the template name, which is not empty, and one last part, the claim
-- hash; and then it is cut to the VMI name, a dash and the template name.
pub extract_sound :
    (full : Text)
    → ((extract_stable_claim_name full ≡ full) × Kept full)
      ⊎ Shortened full (extract_stable_claim_name full)
unfolding extract_stable_claim_name
extract_sound full = elim (Bool-cases (has_prefix full virt_launcher_prefix)) [
  | inr other ↦ inl (rw other refl, inl other)
  | inl ours ↦
      let rest = trim_prefix full virt_launcher_prefix in
      let cut : stable_of_parts full (split b'-' rest) ≡ extract_stable_claim_name full =
        rw ours refl in
      subst (Cut full) cut (
        shorten full (split b'-' rest) (split-ne-nil b'-' rest)
          (rw (join-split b'-' rest) (sym (append-trim_prefix full virt_launcher_prefix ours)))
          (All-Lacks-split b'-' rest))
]
