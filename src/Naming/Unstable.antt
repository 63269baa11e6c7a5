-- ===== src/Naming/Unstable.antt =====
-- VMI names for which `extractStableClaimName` gives names that change with the pod.
use dra_example_driver.Common.{
  ◌+◌, ◌≤◌, ◌≡◌, sym, ◌∙◌, ap, ◌≢◌, true, false, List, [], ◌∷◌, ◌++◌, Text, codes, length, All,
  arith, length-append, All-append_left, All-append_right,
}
use dra_example_driver.Naming.{virt_launcher_prefix, is_pod_hash, extract_stable_claim_name}
use dra_example_driver.Naming.Strings.{split, join, Lacks, split-join_ne}
use dra_example_driver.Naming.VirtLauncher.{stable_name}
use dra_example_driver.Naming.Stable.{extract-virt_launcher_name}

append_cancel {ℓ} : {A : Type ℓ} (xs ys zs : List A) → xs ++ ys ≡ xs ++ zs → ys ≡ zs
append_cancel [] ys zs e = e
append_cancel (x ∷ xs) ys zs e = append_cancel xs ys zs (cc e)

join_injective :
    (ps qs : List Text)
    → ps ≢ []
    → qs ≢ []
    → All (Lacks b'-') ps
    → All (Lacks b'-') qs
    → join b'-' ps ≡ join b'-' qs
    → ps ≡ qs
join_injective ps qs np nq lp lq e =
    sym (split-join_ne b'-' ps np lp) ∙ ap (split b'-') e ∙ split-join_ne b'-' qs nq lq

cons_end-ne-nil {ℓ} : {A : Type ℓ} (xs : List A) (y : A) (ys : List A) → xs ++ y ∷ ys ≢ []
cons_end-ne-nil [] y ys e = cc
cons_end-ne-nil (x ∷ xs) y ys e = cc

module _ (before : List Text) (five : Text) (after : List Text) (template : List Text) where
  -- The parts of the name of a claim whose VMI name has the part `five`.
  abbrev parts_of : Text → Text → List Text
  parts_of hash claim_hash = (before ++ five ∷ (after ++ hash ∷ template)) ++ claim_hash ∷ []

  abbrev rest_of : Text → List Text
  rest_of hash = after ++ hash ∷ template

  rest_ne_nil : (hash : Text) → rest_of hash ≢ []
  rest_ne_nil hash e = absurd (cons_end-ne-nil after hash template e)

  rest_Lacks :
      (hash claim_hash : Text)
      → All (Lacks b'-') (parts_of hash claim_hash)
      → All (Lacks b'-') (rest_of hash)
  rest_Lacks hash claim_hash lacks =
      (All-append_right (Lacks b'-') before (five ∷ rest_of hash)
        (All-append_left (Lacks b'-') (before ++ five ∷ rest_of hash) (claim_hash ∷ []) lacks)).1

  name_of :
      (hash claim_hash : Text)
      → template ≢ []
      → All (λ p. is_pod_hash p ≡ false) before
      → is_pod_hash five ≡ true
      → 2 ≤ length before + length after + length template
      → All (Lacks b'-') (parts_of hash claim_hash)
      → extract_stable_claim_name (virt_launcher_prefix ++ join b'-' (parts_of hash claim_hash))
        ≡ stable_name before (rest_of hash)
  name_of hash claim_hash ne plain h room lacks =
      extract-virt_launcher_name before five (rest_of hash) claim_hash
        (omega (arith, length-append after (hash ∷ template))) (rest_ne_nil hash) plain h lacks

  -- If a part of the VMI name looks like a pod hash and none before it does, if no part holds a dash,
  -- if there is a template name, and if it and the VMI name have at least three parts together, then
  -- the pod hash stays in the name: two pods of one VMI with different hashes get two names.
  pub extract_unstable :
      (hash hash' claim_hash claim_hash' : Text)
      → hash ≢ hash'
      → template ≢ []
      → All (λ p. is_pod_hash p ≡ false) before
      → is_pod_hash five ≡ true
      → 2 ≤ length before + length after + length template
      → All (Lacks b'-') (parts_of hash claim_hash)
      → All (Lacks b'-') (parts_of hash' claim_hash')
      → extract_stable_claim_name (virt_launcher_prefix ++ join b'-' (parts_of hash claim_hash))
        ≢ extract_stable_claim_name (virt_launcher_prefix ++ join b'-' (parts_of hash' claim_hash'))
  extract_unstable hash hash' c c' differ ne plain h room lacks lacks' same =
      let kept : stable_name before (rest_of hash) ≡ stable_name before (rest_of hash') =
        sym (name_of hash c ne plain h room lacks)
        ∙ same
        ∙ name_of hash' c' ne plain h room lacks' in
      let tails : join b'-' (rest_of hash) ≡ join b'-' (rest_of hash') =
        append_cancel (join b'-' before ++ codes "-") _ _ kept in
      let rests : rest_of hash ≡ rest_of hash' =
        join_injective (rest_of hash) (rest_of hash') (rest_ne_nil hash) (rest_ne_nil hash')
          (rest_Lacks hash c lacks) (rest_Lacks hash' c' lacks') tails in
      differ (cc (append_cancel after _ _ rests))
