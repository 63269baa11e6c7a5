-- ===== src/ClaimDir/Json.antt =====
-- The text that `json.MarshalIndent` prints for the metadata of a device, read by the grammar of JSON
-- (RFC 8259) and not by the printer.
use dra_example_driver.Common.{
  ℕ, ◌+◌, ◌-◌, ◌≤◌, ◌<◌, ◌≡◌, refl, ap, ◌≢◌, ◌⊎◌, inl, inr, ◌∙◌, Bool, true, false, Option, none,
  some, [], ◌∷◌, ◌++◌, Text, codes, ltb, nat_eqb, if◌then◌else◌, arith,
}
use Prim.Native.Nat.{◌*◌, ◌/◌, ◌%◌}
use dra_example_driver.ClaimDir.Metadata.{
  hex_digit, unicode_escape, json_byte, json_text, metadata_json,
}

-- The value of a hexadecimal digit.
abbrev pub hex_value : ℕ → ℕ
hex_value d = if ltb d b'a' then d - b'0' else (d - b'a') + 10

-- What stands for a byte: the byte itself, a backslash and a letter, or the number of the byte.
abbrev pub Verbatim : ℕ → Text → Type 0
Verbatim c e = (e ≡ c ∷ []) × (32 ≤ c) × (c ≢ b'"') × (c ≢ b'\\')

abbrev pub named : ℕ → Option ℕ
named x =
    if nat_eqb x b'"'
    then some b'"'
    else if nat_eqb x b'\\'
    then some b'\\'
    else if nat_eqb x b'b'
    then some 8
    else if nat_eqb x b'f'
    then some 12
    else if nat_eqb x b'n'
    then some 10
    else if nat_eqb x b'r'
    then some 13
    else if nat_eqb x b't'
    then some 9
    else none

abbrev pub Named : ℕ → Text → Type 0
Named c e = (x : ℕ) × (e ≡ b'\\' ∷ x ∷ []) × (named x ≡ some c)

abbrev pub Numbered : ℕ → Text → Type 0
Numbered c e =
    (h : ℕ) × (l : ℕ) × (e ≡ codes "\\u00" ++ h ∷ l ∷ []) × (hex_value h * 16 + hex_value l ≡ c)

abbrev pub StandsFor : ℕ → Text → Type 0
StandsFor c e = Verbatim c e ⊎ (Named c e ⊎ Numbered c e)

-- The characters of a JSON string that stands for the text.
abbrev pub IsJsonOf : Text → Text → Type 0
IsJsonOf [] t = t ≡ []
IsJsonOf (c ∷ s) t = (e : Text) × (rest : Text) × StandsFor c e × (t ≡ e ++ rest) × IsJsonOf s rest

hex_value-hex_digit : (d : ℕ) → d < 16 → hex_value (hex_digit d) ≡ d
hex_value-hex_digit d h = ground arith

number_lem :
    (c : ℕ) → c < 256 → hex_value (hex_digit (c / 16)) * 16 + hex_value (hex_digit (c % 16)) ≡ c
number_lem c h =
    rw (hex_value-hex_digit (c / 16) (omega arith), hex_value-hex_digit (c % 16) (omega arith))
      (omega arith)

-- A choice of what stands for a byte.
if_StandsFor :
    (c : ℕ) (b : Bool) (x y : Text)
    → (b ≡ true → StandsFor c x)
    → (b ≡ false → StandsFor c y)
    → StandsFor c (if b then x else y)
if_StandsFor c true x y hx hy = hx refl
if_StandsFor c false x y hx hy = hy refl

named_lem : (c d x : ℕ) → named x ≡ some d → nat_eqb c d ≡ true → StandsFor c (b'\\' ∷ x ∷ [])
named_lem c d x known h = inr (inl (x, refl, known ∙ ap some (ground arith)))

numbered_lem : (c : ℕ) → c < 256 → StandsFor c (unicode_escape c)
numbered_lem c h = inr (inr (hex_digit (c / 16), hex_digit (c % 16), refl, number_lem c h))

json_byte-StandsFor : (c : ℕ) → StandsFor c (json_byte c)
json_byte-StandsFor c = if_StandsFor c (nat_eqb c b'"') _ _ (named_lem c b'"' b'"' refl) λ quote.
    if_StandsFor c (nat_eqb c b'\\') _ _ (named_lem c b'\\' b'\\' refl) λ backslash.
      if_StandsFor c _ _ _ (named_lem c 8 b'b' refl) λ _.
        if_StandsFor c _ _ _ (named_lem c 12 b'f' refl) λ _.
          if_StandsFor c _ _ _ (named_lem c 10 b'n' refl) λ _.
            if_StandsFor c _ _ _ (named_lem c 13 b'r' refl) λ _.
              if_StandsFor c _ _ _ (named_lem c 9 b't' refl) λ _.
                if_StandsFor c (ltb c 32) _ _ (λ h. numbered_lem c (ground arith))
                  λ printed.
                    if_StandsFor c (nat_eqb c b'<') _ _ (λ h. numbered_lem c (ground arith))
                      λ _.
                        if_StandsFor c (nat_eqb c b'>') _ _ (λ h. numbered_lem c (ground arith))
                          λ _.
                            if_StandsFor c (nat_eqb c b'&') _ _ (λ h. numbered_lem c (ground arith))
                              λ _. inl (
                                refl,
                                ground arith,
                                (λ e. absurd (ground arith)),
                                (λ e. absurd (ground arith)),
                              )

json_text-IsJsonOf : (s : Text) → IsJsonOf s (json_text s)
unfolding json_text
json_text-IsJsonOf [] = refl
json_text-IsJsonOf (c ∷ s) =
    (json_byte c, json_text s, json_byte-StandsFor c, refl, json_text-IsJsonOf s)

-- The text of an object whose only member, device_id, is the device.
abbrev pub IsMetadataOf : Text → Text → Type 0
IsMetadataOf device content =
    (escaped : Text) × IsJsonOf device escaped
    × (content ≡ codes "{\n  \"device_id\": \"" ++ escaped ++ codes "\"\n}")

pub metadata_json-IsMetadataOf : (device : Text) → IsMetadataOf device (metadata_json device)
unfolding metadata_json
metadata_json-IsMetadataOf device = (json_text device, json_text-IsJsonOf device, refl)
