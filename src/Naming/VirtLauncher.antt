-- ===== src/Naming/VirtLauncher.antt =====
-- Claim names of virt-launcher pods, and where `extractStableClaimName` finds the pod hash of one.
use Prim.Native.Nat.{suc}
use dra_example_driver.Common.{
  ℕ, ◌+◌, ◌-◌, ◌<◌, ◌≡◌, refl, ◌∙◌, ap, ◌≢◌, true, false, some, List, [], ◌∷◌, ◌++◌, Text, codes,
  length, take, drop, All, arith, length-append, take-length-append,
}
use dra_example_driver.Naming.{is_pod_hash, pod_hash_index}
use dra_example_driver.Naming.Strings.{join}

-- The name `virt-launcher-<vmi-name>-<pod-hash>-<template-name>-<claim-hash>`, from its parts.
abbrev pub virt_launcher_name : List Text → Text → List Text → Text → Text
virt_launcher_name vmi hash template claim_hash =
    codes "virt-launcher-" ++ join b'-' ((vmi ++ hash ∷ template) ++ claim_hash ∷ [])

abbrev pub stable_name : List Text → List Text → Text
stable_name vmi template = join b'-' vmi ++ codes "-" ++ join b'-' template

pub take_init {ℓ} :
    {A : Type ℓ} (xs : List A) (x : A) → take (length (xs ++ x ∷ []) - 1) (xs ++ x ∷ []) ≡ xs
take_init xs x =
    let e : length (xs ++ x ∷ []) - 1 ≡ length xs = omega (arith, length-append xs (x ∷ [])) in
    rw e (take-length-append xs (x ∷ []))

pub drop_one_more {ℓ} :
    {A : Type ℓ} (xs : List A) (y : A) (ys : List A) → drop (length xs + 1) (xs ++ y ∷ ys) ≡ ys
drop_one_more [] y ys = refl
drop_one_more (x ∷ xs) y ys =
    let e : suc (length xs) + 1 ≡ suc (length xs + 1) = omega arith in rw e (drop_one_more xs y ys)

pod_hash_index-append :
    (total i : ℕ) (vmi ps : List Text)
    → All (λ p. is_pod_hash p ≡ false) vmi
    → pod_hash_index total i (vmi ++ ps) ≡ pod_hash_index total (i + length vmi) ps
unfolding pod_hash_index
pod_hash_index-append total i [] ps _ = ap (λ k. pod_hash_index total k ps) (omega arith)
pod_hash_index-append total i (p ∷ vmi) ps (h, hs) =
    let e : (i + 1) + length vmi ≡ i + suc (length vmi) = omega arith in
    rw h (pod_hash_index-append total (i + 1) vmi ps hs ∙ ap (λ k. pod_hash_index total k ps) e)

pod_hash_index_here :
    (total i : ℕ) (hash : Text) (ps : List Text)
    → is_pod_hash hash ≡ true
    → i + 1 < total
    → pod_hash_index total i (hash ∷ ps) ≡ some i
unfolding pod_hash_index
pod_hash_index_here total i hash ps h lt = rw h (ground arith)

pub pod_hash_index_at :
    (vmi : List Text) (hash : Text) (template : List Text)
    → All (λ p. is_pod_hash p ≡ false) vmi
    → is_pod_hash hash ≡ true
    → template ≢ []
    → pod_hash_index (length (vmi ++ hash ∷ template)) 0 (vmi ++ hash ∷ template)
      ≡ some (length vmi)
pod_hash_index_at vmi hash [] _ _ ne = absurd (ne refl)
pod_hash_index_at vmi hash (t ∷ template) plain h ne =
    let start : 0 + length vmi ≡ length vmi = omega arith in
    pod_hash_index-append _ 0 vmi (hash ∷ t ∷ template) plain
    ∙ rw start (
        pod_hash_index_here _ (length vmi) hash (t ∷ template) h
          (omega (arith, length-append vmi (hash ∷ t ∷ template))))
