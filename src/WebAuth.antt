-- ===== src/WebAuth.antt =====
-- src/web_auth.rs: one-time passwords (RFC 6238) and base32 secrets. Bytes are natural numbers below
-- 256; HMAC-SHA1, of the crate ring, is a parameter.
use Prim.Native.Char.{Char, code}
use Prim.Native.String.{len, char_at, ◌++◌ as text_append}
use conversation_blackboard.Common.{
  ℕ, zero, suc, ◌+◌, ◌-◌, ◌*◌, ◌/◌, ◌%◌, ◌^◌, String, Bool, false, not, ◌&&◌, ◌||◌, Option, none,
  some, List, [], ◌∷◌, ◌++◌, leb, ltb, length, if◌then◌else◌,
}
use conversation_blackboard.Common.Eq.{◌==◌, nat_eq, string_eq}
use conversation_blackboard.Text.{is_empty, any_char}

abbrev pub totp_period_secs : ℕ
totp_period_secs = 30

abbrev pub totp_digits : ℕ
totp_digits = 6

abbrev pub totp_max_failures : ℕ
totp_max_failures = 5

abbrev pub totp_lock_secs : ℕ
totp_lock_secs = 60

-- The largest `u64`.
abbrev pub u64_max : ℕ
u64_max = 18446744073709551615

abbrev singleton : Char → String
singleton c = String.◌∷◌ c String.[]

-- `to_ascii_uppercase`, then the two ranges of the alphabet
unfoldable pub base32_index : Char → Option ℕ
base32_index c =
    let n = code c in
    let upper = if leb 97 n && leb n 122 then n - 32 else n in
    if leb 65 upper && leb upper 90
    then some (upper - 65)
    else if leb 50 upper && leb upper 55
    then some (upper - 50 + 26)
    else none

unfoldable pub decode_chars : String → ℕ → ℕ → List ℕ → Option (List ℕ)
decode_chars String.[] buffer bits out = some out
decode_chars (String.◌∷◌ c s) buffer bits out = elim (base32_index c) [
  | none ↦ none
  | some index ↦
      let pushed = (buffer * 32 + index) % 4294967296 in
      (if leb 8 (bits + 5)
        then decode_chars s pushed (bits - 3) (out ++ pushed / 2 ^ (bits - 3) % 256 ∷ [])
        else decode_chars s pushed (bits + 5) out)
]

unfoldable pub base32_decode : String → Option (List ℕ)
base32_decode value =
    if is_empty value || any_char (λ c. code c == 61) value then none else decode_chars value 0 0 []

unfoldable pub validate_totp_secret : String → Bool
validate_totp_secret secret = elim (base32_decode secret) [
  | none ↦ false
  | some bytes ↦ leb 10 (length bytes) && leb (length bytes) 64
]

-- `code.len() == 6` and every byte an ASCII digit
unfoldable pub is_totp_code : String → Bool
is_totp_code value =
    len value == totp_digits && not (any_char (λ c. not (leb 48 (code c) && leb (code c) 57)) value)

-- `u64::to_be_bytes`
unfoldable pub be_bytes : ℕ → ℕ → List ℕ
be_bytes zero value = []
be_bytes (suc width) value = be_bytes width (value / 256) ++ value % 256 ∷ []

-- `format!("{:0width$}")` of a number with at most `width` digits
unfoldable pub zero_padded : ℕ → ℕ → String
zero_padded zero value = String.[]
zero_padded (suc width) value =
    text_append (zero_padded width (value / 10)) (singleton (char_at "0123456789" (value % 10)))

-- `digest[i]`; the bounds check in `totp_code_bytes` keeps `i` inside.
abbrev pub byte_at : List ℕ → ℕ → ℕ
byte_at [] i = 0
byte_at (b ∷ bytes) zero = b
byte_at (b ∷ bytes) (suc i) = byte_at bytes i

abbrev pub last_byte : List ℕ → Option ℕ
last_byte [] = none
last_byte (b ∷ []) = some b
last_byte (b ∷ c ∷ bytes) = last_byte (c ∷ bytes)

-- The dynamic truncation of RFC 4226; the four shifted bytes share no bit, so `|` adds them.
unfoldable pub truncate_digest : List ℕ → ℕ → ℕ
truncate_digest digest offset =
    byte_at digest offset % 128 * 16777216
    + byte_at digest (offset + 1) * 65536
    + byte_at digest (offset + 2) * 256
    + byte_at digest (offset + 3)

-- HMAC-SHA1 of a message under a key.
abbrev pub HmacSha1 : Type 0
HmacSha1 = List ℕ → List ℕ → List ℕ

module _ (hmac_sha1 : HmacSha1) where
  unfoldable pub totp_code_bytes : List ℕ → ℕ → ℕ → Option String
  totp_code_bytes secret step digits =
      let digest = hmac_sha1 secret (be_bytes 8 step) in
      if not (leb 6 digits && leb digits 8) then none else elim (last_byte digest) [
        | none ↦ none
        | some last ↦
            let offset = last % 16 in
            (if ltb (length digest) (offset + 4)
              then none
              else some (zero_padded digits (truncate_digest digest offset % 10 ^ digits)))
      ]

  -- The loop over the candidate steps.
  unfoldable pub first_matching : List ℕ → String → List ℕ → Option ℕ
  first_matching secret value [] = none
  first_matching secret value (step ∷ steps) =
      let rest = first_matching secret value steps in
      elim (totp_code_bytes secret step totp_digits) [
        | none ↦ none
        | some expected ↦ if expected == value then some step else rest
      ]

  -- The current step, the one before it and the one after it, where they are there.
  unfoldable pub candidate_steps : ℕ → List ℕ
  candidate_steps current =
      let after = if current == u64_max then [] else (current + 1) ∷ [] in
      current ∷ (if current == 0 then after else (current - 1) ∷ after)

  unfoldable pub matching_totp_step : String → String → ℕ → Option ℕ
  matching_totp_step secret value now =
      if not (is_totp_code value) then none else elim (base32_decode secret) [
        | none ↦ none
        | some bytes ↦ first_matching bytes value (candidate_steps (now / totp_period_secs))
      ]
