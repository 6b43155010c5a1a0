-- ===== src/Text.antt =====
-- What the program does to a text before it trusts it: `str::trim`, `char::is_control` and the
-- functions built on them, `normalize` of authorization_admin.rs and of authorization.rs,
-- `normalize_intent_id` of execution.rs and `validate_participant_id` of identity.rs.
pub mod Trim
pub mod Laws
pub mod Decimal
use Prim.Native.Char.{Char, code}
use Prim.Native.String.{String, len, count}
use conversation_blackboard.Common.{
  ℕ, Bool, true, false, not, ◌&&◌, ◌||◌, Option, none, some, ltb, leb, if◌then◌else◌,
}
use conversation_blackboard.Common.Eq.{◌==◌, nat_eq}

-- `char::is_whitespace`: the code points with the property White_Space
unfoldable pub is_whitespace : Char → Bool
is_whitespace c =
    let n = code c in
    leb 9 n && leb n 13
    || n == 32
    || n == 133
    || n == 160
    || n == 5760
    || leb 8192 n && leb n 8202
    || n == 8232
    || n == 8233
    || n == 8239
    || n == 8287
    || n == 12288

-- `char::is_control`: the category Cc
unfoldable pub is_control : Char → Bool
is_control c = let n = code c in leb n 31 || leb 127 n && leb n 159

abbrev pub is_empty : String → Bool
is_empty String.[] = true
is_empty (String.◌∷◌ c s) = false

-- `chars().any(test)`
unfoldable pub any_char : (Char → Bool) → String → Bool
any_char test String.[] = false
any_char test (String.◌∷◌ c s) = test c || any_char test s

unfoldable pub trim_start : String → String
trim_start String.[] = String.[]
trim_start (String.◌∷◌ c s) =
    let rest = trim_start s in if is_whitespace c then rest else String.◌∷◌ c s

unfoldable pub trim_end : String → String
trim_end String.[] = String.[]
trim_end (String.◌∷◌ c s) =
    let rest = trim_end s in
    if is_empty rest && is_whitespace c then String.[] else String.◌∷◌ c rest

unfoldable pub trim : String → String
trim s = trim_end (trim_start s)

unfoldable pub is_acceptable : ℕ → String → Bool
is_acceptable max_bytes value =
    not (is_empty value) && not (ltb max_bytes (len value)) && not (any_char is_control value)

-- authorization_admin.rs: `normalize`; the error names the field only
unfoldable pub normalize : ℕ → String → Option String
normalize max_bytes value =
    let trimmed = trim value in if is_acceptable max_bytes trimmed then some trimmed else none

abbrev pub max_intent_id_bytes : ℕ
max_intent_id_bytes = 256

unfoldable pub normalize_intent_id : String → Option String
unfolding normalize
normalize_intent_id value = normalize max_intent_id_bytes value

abbrev is_alphanumeric : Char → Bool
is_alphanumeric c =
    let n = code c in leb 65 n && leb n 90 || leb 97 n && leb n 122 || leb 48 n && leb n 57

abbrev is_id_char : Char → Bool
is_id_char c = let n = code c in is_alphanumeric c || n == 46 || n == 95 || n == 58 || n == 45

-- ^[A-Za-z0-9][A-Za-z0-9._:-]{0,63}$
unfoldable pub is_participant_id : String → Bool
unfolding any_char
is_participant_id String.[] = false
is_participant_id (String.◌∷◌ c s) =
    is_alphanumeric c && not (any_char (λ d. not (is_id_char d)) s) && leb (count s) 63

unfoldable pub validate_participant_id : String → Option String
validate_participant_id value =
    let trimmed = trim value in if is_participant_id trimmed then some trimmed else none
