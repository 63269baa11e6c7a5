-- ===== src/ClaimDir/Metadata.antt =====
-- `DeviceMetadata`, printed by Go's `json.MarshalIndent` with two spaces for each level.
use dra_example_driver.Common.{ℕ, ◌+◌, ◌-◌, [], ◌∷◌, ◌++◌, Text, codes, ltb, nat_eqb, if◌then◌else◌}
use Prim.Native.Nat.{◌/◌, ◌%◌}

-- A digit of a hexadecimal number.
abbrev pub hex_digit : ℕ → ℕ
hex_digit d = if ltb d 10 then b'0' + d else b'a' + (d - 10)

abbrev pub unicode_escape : ℕ → Text
unicode_escape c = codes "\\u00" ++ hex_digit (c / 16) ∷ hex_digit (c % 16) ∷ []

-- The characters that Go escapes, for text in UTF-8 without the two line separators.
abbrev pub json_byte : ℕ → Text
json_byte c =
    if nat_eqb c b'"'
    then codes "\\\""
    else if nat_eqb c b'\\'
    then codes "\\\\"
    else if nat_eqb c 8
    then codes "\\b"
    else if nat_eqb c 12
    then codes "\\f"
    else if nat_eqb c 10
    then codes "\\n"
    else if nat_eqb c 13
    then codes "\\r"
    else if nat_eqb c 9
    then codes "\\t"
    else if ltb c 32
    then unicode_escape c
    else if nat_eqb c b'<'
    then unicode_escape c
    else if nat_eqb c b'>'
    then unicode_escape c
    else if nat_eqb c b'&'
    then unicode_escape c
    else c ∷ []

unfoldable pub json_text : Text → Text
json_text [] = []
json_text (c ∷ s) = json_byte c ++ json_text s

unfoldable pub metadata_json : Text → Text
unfolding json_text
metadata_json device = codes "{\n  \"device_id\": \"" ++ json_text device ++ codes "\"\n}"
