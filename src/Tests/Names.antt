-- ===== src/Tests/Names.antt =====
-- Claim names from the comments of the code, and the theorems on names at concrete names.
use dra_example_driver.Common.{
  ◌≡◌, refl, ◌≢◌, ◌⊎◌, List, [], ◌∷◌, ◌++◌, Text, codes, arith, All, nat_eq, list_eq, Bool, true,
  false, if◌then◌else◌, nat_eqb, Bool-cases, inl, inr,
}
use dra_example_driver.Naming
use dra_example_driver.Naming.{
  virt_launcher_prefix, extract_stable_claim_name, is_pod_hash, pod_hash_index,
}
use dra_example_driver.Naming.Strings.{has_prefix, trim_prefix, split, join, Lacks}
use dra_example_driver.Naming.Unstable.{extract_unstable}
use dra_example_driver.Naming.VirtLauncher.{virt_launcher_name, stable_name}
use dra_example_driver.Naming.Stable.{Kept, Shortened, extract-virt_launcher_name, extract_sound}

abbrev full_name : Text
full_name = codes "virt-launcher-vm-a-drz4j-dummy-gpu-fngjv"

-- The example of the comment on `extractStableClaimName`.
full_name_cut : extract_stable_claim_name full_name ≡ codes "vm-a-dummy-gpu"
unfolding extract_stable_claim_name has_prefix trim_prefix split join pod_hash_index
    Naming.is_alphanumeric
full_name_cut = refl

lacks : Text → Bool
lacks [] = true
lacks (c ∷ s) = if nat_eqb c b'-' then false else lacks s

lack_all : List Text → Bool
lack_all [] = true
lack_all (p ∷ ps) = if lacks p then lack_all ps else false

text_lacks : (s : Text) → lacks s ≡ true → Lacks b'-' s
unfolding lacks
text_lacks [] h = tt
text_lacks (c ∷ s) h = elim (Bool-cases (nat_eqb c b'-')) [
  | inl bad ↦ absurd (ground arith)
  | inr good ↦ (λ e. absurd (ground arith), text_lacks s (rw good at h))
]

parts_lack : (ps : List Text) → lack_all ps ≡ true → All (Lacks b'-') ps
unfolding lack_all
parts_lack [] h = tt
parts_lack (p ∷ ps) h = elim (Bool-cases (lacks p)) [
  | inl good ↦ (text_lacks p good, parts_lack ps (rw good at h))
  | inr bad ↦ absurd (ground arith)
]

hash_lem : is_pod_hash (codes "drz4j") ≡ true
unfolding Naming.is_alphanumeric
hash_lem = refl

five_lem : is_pod_hash (codes "fedor") ≡ true
unfolding Naming.is_alphanumeric
five_lem = refl

name_parts_lack :
    lack_all (
      (codes "vm" ∷ codes "a" ∷ codes "drz4j" ∷ codes "dummy" ∷ codes "gpu" ∷ [])
      ++ codes "fngjv" ∷ [])
    ≡ true
unfolding lacks lack_all
name_parts_lack = refl

unstable_parts_lack :
    (lack_all
        ((codes "fedor" ∷ codes "drz4j" ∷ codes "dummy" ∷ codes "gpu" ∷ []) ++ codes "fngjv" ∷ [])
      ≡ true)
    × (lack_all
          ((codes "fedor" ∷ codes "xk2p9" ∷ codes "dummy" ∷ codes "gpu" ∷ []) ++ codes "b7xqw" ∷ [])
        ≡ true)
unfolding lacks lack_all
unstable_parts_lack = (refl, refl)

-- A VMI named fedor.
extract_unstable_example :
    extract_stable_claim_name (
      virt_launcher_prefix
      ++ join b'-' (
          (codes "fedor" ∷ codes "drz4j" ∷ codes "dummy" ∷ codes "gpu" ∷ []) ++ codes "fngjv" ∷ []))
    ≢ extract_stable_claim_name (
        virt_launcher_prefix
        ++ join b'-' (
            (codes "fedor" ∷ codes "xk2p9" ∷ codes "dummy" ∷ codes "gpu" ∷ [])
            ++ codes "b7xqw" ∷ []))
extract_unstable_example =
    extract_unstable [] (codes "fedor") [] (codes "dummy" ∷ codes "gpu" ∷ []) (codes "drz4j")
      (codes "xk2p9") (codes "fngjv") (codes "b7xqw") (λ e. absurd (ground arith)) (λ e. cc) tt
      five_lem (omega arith) (parts_lack _ unstable_parts_lack.0)
      (parts_lack _ unstable_parts_lack.1)

extract-virt_launcher_name_example :
    extract_stable_claim_name (
      virt_launcher_name
        (codes "vm" ∷ codes "a" ∷ [])
        (codes "drz4j")
        (codes "dummy" ∷ codes "gpu" ∷ [])
        (codes "fngjv"))
    ≡ stable_name (codes "vm" ∷ codes "a" ∷ []) (codes "dummy" ∷ codes "gpu" ∷ [])
extract-virt_launcher_name_example =
    extract-virt_launcher_name (codes "vm" ∷ codes "a" ∷ []) (codes "drz4j")
      (codes "dummy" ∷ codes "gpu" ∷ []) (codes "fngjv") (omega arith) (λ e. cc) (refl, (refl, tt))
      hash_lem (parts_lack _ name_parts_lack)

extract_sound_example :
    ((extract_stable_claim_name full_name ≡ full_name) × Kept full_name)
    ⊎ Shortened full_name (extract_stable_claim_name full_name)
extract_sound_example = extract_sound full_name
