-- ===== src/Profile/Network/StableName.antt =====
-- `extractStableClaimName` and `isAlphanumeric` of internal/profiles/network/network.go.
use dra_example_driver.Common.{
  ℕ, ◌+◌, ◌-◌, ◌≡◌, refl, Bool, true, false, ◌&&◌, ◌||◌, Option, none, some, List, [], ◌∷◌, ◌++◌,
  Text, codes, leb, ltb, nat_eqb, if◌then◌else◌, length, take, drop,
}
use dra_example_driver.Naming
use dra_example_driver.Naming.Strings.{has_prefix, trim_prefix, split, join}

unfoldable pub is_alphanumeric : Text → Bool
is_alphanumeric [] = true
is_alphanumeric (c ∷ s) =
    if (leb b'a' c && leb c b'z') || (leb b'A' c && leb c b'Z') || (leb b'0' c && leb c b'9')
    then is_alphanumeric s
    else false

-- The loop over `withoutClaimHash`, which has `total` parts; `none` is -1.
pod_hash_index : ℕ → ℕ → List Text → Option ℕ
unfolding is_alphanumeric
pod_hash_index total i [] = none
pod_hash_index total i (part ∷ parts) =
    let rest = pod_hash_index total (i + 1) parts in
    if nat_eqb (length part) 5 && is_alphanumeric part
    then (if ltb (i + 1) total then some i else rest)
    else rest

abbrev cut_at : Text → List Text → Option ℕ → Text
cut_at full parts none = full
cut_at full parts (some i) = join b'-' (take i parts) ++ codes "-" ++ join b'-' (drop (i + 1) parts)

abbrev cut_parts : Text → List Text → Text
cut_parts full parts =
    if ltb (length parts) 4
    then full
    else (let without_claim_hash = take (length parts - 1) parts in
        cut_at full without_claim_hash
          (pod_hash_index (length without_claim_hash) 0 without_claim_hash))

unfoldable pub extract_stable_claim_name : Text → Text
unfolding pod_hash_index
extract_stable_claim_name full =
    if has_prefix full (codes "virt-launcher-")
    then cut_parts full (split b'-' (trim_prefix full (codes "virt-launcher-")))
    else full

is_alphanumeric-same : (s : Text) → is_alphanumeric s ≡ Naming.is_alphanumeric s
unfolding is_alphanumeric Naming.is_alphanumeric
is_alphanumeric-same [] = refl
is_alphanumeric-same (c ∷ s) = rw (is_alphanumeric-same s)

pod_hash_index-same :
    (total i : ℕ) (parts : List Text)
    → pod_hash_index total i parts ≡ Naming.pod_hash_index total i parts
unfolding pod_hash_index Naming.pod_hash_index
pod_hash_index-same total i [] = refl
pod_hash_index-same total i (p ∷ parts) =
    rw (is_alphanumeric-same p, pod_hash_index-same total (i + 1) parts)

cut_at-same :
    (full : Text) (parts : List Text) (o : Option ℕ)
    → cut_at full parts o ≡ Naming.without_pod_hash full parts o
cut_at-same full parts none = refl
cut_at-same full parts (some i) = refl

-- The driver and the network profile shorten every claim name alike.
pub extract_stable_claim_name-same :
    (full : Text) → extract_stable_claim_name full ≡ Naming.extract_stable_claim_name full
unfolding extract_stable_claim_name Naming.extract_stable_claim_name
extract_stable_claim_name-same full = simp (pod_hash_index-same, cut_at-same)
