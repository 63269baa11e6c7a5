-- ===== src/ClaimDir/Confined.antt =====
-- Where the directory of a claim and a request lies.
use dra_example_driver.Common.{
  ◌≡◌, refl, sym, ◌∙◌, ap, ◌≢◌, inl, inr, Bool, true, false, Bool-cases, not, ◌||◌, if◌then◌else◌,
  List, [], ◌∷◌, ◌++◌, append-nil, append_assoc, Text, codes, ◌==◌, nat_eq, list_eq, All,
  All-append, All-append_left, All-append_right, keep, any, arith,
}
use dra_example_driver.Naming.Strings.{Lacks, split, join, All-join, All-join_inv, split-Lacks}
use dra_example_driver.Naming.{extract_stable_claim_name}
use dra_example_driver.Naming.Stable.{extract_sound}
use dra_example_driver.Paths.{FilePath, step_into, walk, join_path}
use mathlib.Core.Path.{subst}
use mathlib.Core.Bool.{true≢false}
use dra_example_driver.Common.Dict.{lookup}
use dra_example_driver.Checkpoint.Claims.{==-eq}
use dra_example_driver.World.{Host, World}
use dra_example_driver.World.Files.{is_below, remove_all}
use dra_example_driver.World.Keeps.{attempt-cases}
use dra_example_driver.ClaimDir.{base_dir, claim_root, claim_dir, delete_claim_directory}
use dra_example_driver.ClaimDir.Deleted.{lookup-drop_below}

-- The parts of a name that lead to another directory.
abbrev pub leads_on : Text → Bool
leads_on c = not (c == [] || c == codes ".")

-- No part between slashes is `..`.
abbrev pub NoParent : Text → Type 0
NoParent name = All (λ c. (c == codes "..") ≡ false) (split b'/' name)

step_into_plain :
    (p : FilePath) (c : Text)
    → (c == codes "..") ≡ false
    → step_into p c ≡ (if leads_on c then p ++ c ∷ [] else p)
unfolding step_into
step_into_plain p c h = elim (Bool-cases (c == [])) [
  | inl empty ↦ rw empty refl
  | inr named ↦ elim (Bool-cases (c == codes ".")) [
    | inl dot ↦ rw (named, dot) refl
    | inr other ↦ rw (named, other, h) refl
  ]
]

walk-keep :
    (p : FilePath) (cs : List Text)
    → All (λ c. (c == codes "..") ≡ false) cs
    → walk p cs ≡ p ++ keep leads_on cs
unfolding walk
walk-keep p [] _ = sym (append-nil p)
walk-keep p (c ∷ cs) (h, hs) = elim (Bool-cases (leads_on c)) [
  | inl on ↦
      rw (step_into_plain p c h, on) (walk-keep (p ++ c ∷ []) cs hs ∙ append_assoc p (c ∷ []) _)
  | inr stays ↦ rw (step_into_plain p c h, stays) (walk-keep p cs hs)
]

-- A stable name has no slash if the name has none.
extract-Lacks : (full : Text) → Lacks b'/' full → Lacks b'/' (extract_stable_claim_name full)
extract-Lacks full h = elim (extract_sound full) [
  | inl (same, _) ↦ rw same h
  | inr (vmi, hash, template, claim_hash, built, cut, _, _, _, _, _) ↦
      let bytes = All-append_right (λ c. c ≢ b'/') (codes "virt-launcher-") _ (rw built at h) in
      let parts = All-join_inv (λ c. c ≢ b'/') b'-' _ bytes in
      let front = All-append_left (Lacks b'/') (vmi ++ hash ∷ template) (claim_hash ∷ []) parts in
      let vmi_parts = All-append_left (Lacks b'/') vmi (hash ∷ template) front in
      let others = All-append_right (Lacks b'/') vmi (hash ∷ template) front in
      rw (cut ∙ append_assoc (join b'-' vmi) (codes "-") (join b'-' template)) (
        All-append (λ c. c ≢ b'/') (join b'-' vmi) _
          (All-join (λ c. c ≢ b'/') b'-' (omega arith) vmi vmi_parts)
          ((omega arith), All-join (λ c. c ≢ b'/') b'-' (omega arith) template others.1))
]

any-dash : (xs ys : Text) → any (λ c. c == b'-') (xs ++ b'-' ∷ ys) ≡ true
unfolding nat_eq
any-dash [] ys = refl
any-dash (x ∷ xs) ys = ground (arith, any-dash xs ys)

-- A text with a dash is no text without one.
dash_ne : (xs ys t : Text) → any (λ c. c == b'-') t ≡ false → ((xs ++ b'-' ∷ ys) == t) ≡ false
dash_ne xs ys t h = elim (Bool-cases ((xs ++ b'-' ∷ ys) == t)) [
  | inr differ ↦ differ
  | inl same ↦ absurd (
      true≢false
        (sym (any-dash xs ys) ∙ ap (any (λ c. c == b'-')) (==-eq (xs ++ b'-' ∷ ys) t same) ∙ h))
]

-- A name that the API server takes for a claim: one part, and not a step to another directory.
abbrev pub IsPlain : Text → Type 0
IsPlain name = Lacks b'/' name × (leads_on name ≡ true) × ((name == codes "..") ≡ false)

extract-IsPlain : (full : Text) → IsPlain full → IsPlain (extract_stable_claim_name full)
unfolding nat_eq
extract-IsPlain full (lacks, on, up) = elim (extract_sound full) [
  | inl (same, _) ↦ rw same (lacks, on, up)
  | inr (vmi, hash, template, claim_hash, built, cut, _, _, _, _, _) ↦
      let e = dash_ne (join b'-' vmi) (join b'-' template) in
      let cut' = cut ∙ append_assoc (join b'-' vmi) (codes "-") (join b'-' template) in
      (
        extract-Lacks full lacks,
        subst (λ s. leads_on s ≡ true) (sym cut') (rw (e [] refl, e (codes ".") refl) refl),
        subst (λ s. (s == codes "..") ≡ false) (sym cut') (e (codes "..") refl),
      )
]

claim_dir-IsPlain :
    (claim_name request : Text)
    → IsPlain claim_name
    → NoParent request
    → claim_dir claim_name request
      ≡ base_dir ++ extract_stable_claim_name claim_name ∷ keep leads_on (split b'/' request)
unfolding claim_dir join_path
claim_dir-IsPlain claim_name request plain no_parent =
    let stable = extract_stable_claim_name claim_name in
    let (lacks, on, up) = extract-IsPlain claim_name plain in
    ap (λ cs. walk (walk base_dir cs) (split b'/' request)) (split-Lacks b'/' stable lacks)
    ∙ ap (λ p. walk p (split b'/' request)) (walk-keep base_dir (stable ∷ []) (up, tt) ∙ rw on refl)
    ∙ walk-keep (base_dir ++ stable ∷ []) (split b'/' request) no_parent
    ∙ append_assoc base_dir (stable ∷ []) _

-- The directory of a claim, and that of a request whose name is one part.
pub claim_root-IsPlain :
    (claim_name : Text)
    → IsPlain claim_name
    → claim_root claim_name ≡ base_dir ++ extract_stable_claim_name claim_name ∷ []
unfolding claim_root join_path
claim_root-IsPlain claim_name plain =
    let stable = extract_stable_claim_name claim_name in
    let (lacks, on, up) = extract-IsPlain claim_name plain in
    ap (walk base_dir) (split-Lacks b'/' stable lacks)
    ∙ walk-keep base_dir (stable ∷ []) (up, tt)
    ∙ rw on refl

pub claim_dir_plain :
    (claim_name request : Text)
    → IsPlain claim_name
    → IsPlain request
    → claim_dir claim_name request
      ≡ (base_dir ++ extract_stable_claim_name claim_name ∷ []) ++ request ∷ []
claim_dir_plain claim_name request plain (lacks, on, up) =
    let one = split-Lacks b'/' request lacks in
    claim_dir-IsPlain claim_name request plain
      (subst (All (λ c. (c == codes "..") ≡ false)) (sym one) (up, tt))
    ∙ ap (λ cs. base_dir ++ extract_stable_claim_name claim_name ∷ keep leads_on cs) one
    ∙ rw on refl

is_below-append : (p r q : FilePath) → is_below (p ++ r) q ≡ true → is_below p q ≡ true
unfolding is_below
is_below-append [] r q h = refl
is_below-append (c ∷ p) r [] h = h
is_below-append (c ∷ p) r (d ∷ q) h = ground (arith, is_below-append p r q)

-- Whatever becomes of the call, what it removes is the path or lies below it.
delete-outside :
    (H : Host) (claim_name request : Text) (w : World H) (q : FilePath)
    → is_below (claim_dir claim_name request) q ≡ false
    → lookup q (delete_claim_directory H claim_name request w).1.tree ≡ lookup q w.tree
unfolding delete_claim_directory remove_all
delete-outside H claim_name request w q outside =
    let (fs, cases) = attempt-cases w in
    elim cases [
      | inl e ↦ rw e (lookup-drop_below (claim_dir claim_name request) q w.tree ∙ rw outside refl)
      | inr (message, e) ↦ rw e refl
    ]

-- If a claim's name has no slash and is not empty, `.` or `..`, and no part of the request's name
-- between slashes is `..`, then the directory of the claim and the request is the directory of the
-- stable name, right below /var/run/kubevirt/cdi, or lies in it, and whatever becomes of its deletion,
-- everything outside the directory of the stable name is left as it was.
pub claim_dir_confined :
    (H : Host) (claim_name request : Text) (w : World H) (q : FilePath)
    → IsPlain claim_name
    → NoParent request
    → is_below
        (codes "var"
          ∷ codes "run"
          ∷ codes "kubevirt"
          ∷ codes "cdi"
          ∷ extract_stable_claim_name claim_name
          ∷ [])
        q
      ≡ false
    → (claim_dir claim_name request
        ≡ codes "var"
          ∷ codes "run"
          ∷ codes "kubevirt"
          ∷ codes "cdi"
          ∷ extract_stable_claim_name claim_name
          ∷ keep leads_on (split b'/' request))
      × (lookup q (delete_claim_directory H claim_name request w).1.tree ≡ lookup q w.tree)
claim_dir_confined H claim_name request w q plain no_parent outside =
    let at = claim_dir-IsPlain claim_name request plain no_parent in
    (
      at,
      delete-outside H claim_name request w q
          (below_lem (is_below (claim_dir claim_name request) q) at refl),
    )
  where
    below_lem :
        (b : Bool)
        → claim_dir claim_name request
          ≡ base_dir ++ extract_stable_claim_name claim_name ∷ keep leads_on (split b'/' request)
        → is_below (claim_dir claim_name request) q ≡ b
        → is_below (claim_dir claim_name request) q ≡ false
    below_lem false at e = e
    below_lem true at e =
        let root = base_dir ++ extract_stable_claim_name claim_name ∷ [] in
        let inside = is_below-append root (keep leads_on (split b'/' request)) q (
          ap (λ p. is_below p q)
            (append_assoc base_dir (extract_stable_claim_name claim_name ∷ []) _ ∙ sym at)
          ∙ e) in
        absurd (true≢false (sym inside ∙ outside))
