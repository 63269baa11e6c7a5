-- ===== src/Naming.antt =====
-- The migration-stable part of a claim name: `extractStableClaimName` and `isAlphanumeric` of
-- cmd/dra-example-kubeletplugin/state.go, with the functions of Go's `strings` that they call.
-- `isAlphanumeric` ranges over runes and the model over bytes: a rune that is not ASCII and every
-- byte that encodes one are outside the three ranges alike.
pub mod Strings
pub mod Hashed
pub mod VirtLauncher
pub mod Stable
pub mod Unstable
use Prim.Native.Nat.{zero, suc}
use dra_example_driver.Common.{
  ℕ, ◌+◌, ◌-◌, Bool, true, false, ◌&&◌, ◌||◌, Option, none, some, List, [], ◌∷◌, ◌++◌, Text, codes,
  leb, ltb, nat_eqb, if◌then◌else◌, length, take, drop,
}
use Strings.{has_prefix, trim_prefix, split, join}

abbrev pub virt_launcher_prefix : Text
virt_launcher_prefix = codes "virt-launcher-"

abbrev pub is_alphanumeric_byte : ℕ → Bool
is_alphanumeric_byte c =
    (leb b'a' c && leb c b'z') || (leb b'A' c && leb c b'Z') || (leb b'0' c && leb c b'9')

unfoldable pub is_alphanumeric : Text → Bool
is_alphanumeric [] = true
is_alphanumeric (c ∷ s) = if is_alphanumeric_byte c then is_alphanumeric s else false

-- `len(part) == 5 && isAlphanumeric(part)`
abbrev pub is_pod_hash : Text → Bool
is_pod_hash part = nat_eqb (length part) 5 && is_alphanumeric part

-- The loop that looks for the pod hash among `total` parts, from part `i` on; `none` is -1.
unfoldable pub pod_hash_index : ℕ → ℕ → List Text → Option ℕ
pod_hash_index total i [] = none
pod_hash_index total i (part ∷ parts) =
    let rest = pod_hash_index total (i + 1) parts in
    if is_pod_hash part then (if ltb (i + 1) total then some i else rest) else rest

abbrev pub without_pod_hash : Text → List Text → Option ℕ → Text
without_pod_hash full parts none = full
without_pod_hash full parts (some i) =
    join b'-' (take i parts) ++ codes "-" ++ join b'-' (drop (i + 1) parts)

abbrev pub stable_of_parts : Text → List Text → Text
stable_of_parts full parts =
    if ltb (length parts) 4
    then full
    else (let rest = take (length parts - 1) parts in
        without_pod_hash full rest (pod_hash_index (length rest) 0 rest))

unfoldable pub extract_stable_claim_name : Text → Text
unfolding pod_hash_index
extract_stable_claim_name full =
    if has_prefix full virt_launcher_prefix
    then stable_of_parts full (split b'-' (trim_prefix full virt_launcher_prefix))
    else full
