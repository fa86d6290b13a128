-- ===== src/Text/SafeBase64.antt =====
-- src/common/string_util.cpp: UrlSafeBase64Encode, UrlSafeBase64Decode and SafeBase64ToBase64.
pub mod RoundTrip
use Prim.Native.Nat.{bit_or}
use libnbf.Prelude.{
  ℕ, ◌+◌, ◌-◌, ◌*◌, ◌/◌, ◌%◌, Bool, true, false, List, [], ◌∷◌, ◌++◌, map, Option, none, some, ◌==◌,
  if◌then◌else◌, length, get_or, replicate,
}
use libnbf.Prelude.Bytes.{codes}
use libnbf.Text.Base64.{range_from}

-- _t64
abbrev pub safe_table : List ℕ
safe_table = codes "ABCDEFGHIJKLMNOPQRSTUVWXYZabcdefghijklmnopqrstuvwxyz0123456789-_"

-- _t256, with none for -1. It has 224 entries written out: those behind them are 0.
abbrev pub safe_values : List (Option ℕ)
safe_values =
    replicate 45 none
    ++ (some 62 ∷ none ∷ none ∷ [])
    ++ map some (range_from 52 10)
    ++ replicate 7 none
    ++ map some (range_from 0 26)
    ++ replicate 4 none
    ++ (some 63 ∷ none ∷ [])
    ++ map some (range_from 26 26)
    ++ replicate 101 none
    ++ replicate 32 (some 0)

unfoldable pub safe_digit : ℕ → ℕ
safe_digit i = get_or safe_table i 0

unfoldable pub safe_value : ℕ → Option ℕ
safe_value c = get_or safe_values c (some 0)

-- UrlSafeBase64Encode
unfoldable pub url_safe_encode : List ℕ → List ℕ
url_safe_encode [] = []
url_safe_encode (a ∷ []) = safe_digit (a / 4) ∷ safe_digit (a % 4 * 16) ∷ []
url_safe_encode (a ∷ b ∷ []) =
    safe_digit (a / 4) ∷ safe_digit (bit_or (a % 4 * 16) (b / 16)) ∷ safe_digit (b % 16 * 4) ∷ []
url_safe_encode (a ∷ b ∷ c ∷ s) =
    safe_digit (a / 4)
    ∷ safe_digit (bit_or (a % 4 * 16) (b / 16))
    ∷ safe_digit (bit_or (b % 16 * 4) (c / 64))
    ∷ safe_digit (c % 64)
    ∷ url_safe_encode s

-- What UrlSafeBase64Decode returns: its text, -1 or -2.
pub data SafeText : Type 0 where
  decoded : List ℕ → SafeText
  refused : SafeText
  bad_length : SafeText

-- The values of a block's characters, if all of them have one.
unfoldable pub values_of : List ℕ → Option (List ℕ)
values_of [] = some []
values_of (c ∷ s) = elim (safe_value c) [
  | none ↦ none
  | some v ↦ elim (values_of s) [ none ↦ none | some vs ↦ some (v ∷ vs) ]
]

-- The bytes that two, three or four values stand for.
abbrev pub value_bytes : List ℕ → List ℕ
value_bytes [] = []
value_bytes (x ∷ []) = []
value_bytes (x ∷ y ∷ []) = bit_or (x * 4 % 256) (y / 16) ∷ []
value_bytes (x ∷ y ∷ z ∷ []) = bit_or (x * 4 % 256) (y / 16) ∷ bit_or (y % 16 * 16) (z / 4) ∷ []
value_bytes (x ∷ y ∷ z ∷ w ∷ s) =
    bit_or (x * 4 % 256) (y / 16) ∷ bit_or (y % 16 * 16) (z / 4) ∷ bit_or (z % 4 * 64) w ∷ []

-- The last block, of two or three characters: the bits that no byte takes are to be zero.
abbrev pub safe_end : Option (List ℕ) → SafeText
safe_end none = refused
safe_end (some []) = refused
safe_end (some (x ∷ [])) = refused
safe_end (some (x ∷ y ∷ [])) = if y % 16 == 0 then decoded (value_bytes (x ∷ y ∷ [])) else refused
safe_end (some (x ∷ y ∷ z ∷ vs)) =
    if z % 4 == 0 then decoded (value_bytes (x ∷ y ∷ z ∷ [])) else refused

-- A block of four in front of what follows.
abbrev pub safe_block : Option (List ℕ) → SafeText → SafeText
safe_block none rest = refused
safe_block (some vs) (decoded s) = decoded (value_bytes vs ++ s)
safe_block (some vs) refused = refused
safe_block (some vs) bad_length = bad_length

-- UrlSafeBase64Decode
unfoldable pub url_safe_decode : List ℕ → SafeText
url_safe_decode [] = decoded []
url_safe_decode (a ∷ []) = bad_length
url_safe_decode (a ∷ b ∷ []) = safe_end (values_of (a ∷ b ∷ []))
url_safe_decode (a ∷ b ∷ c ∷ []) = safe_end (values_of (a ∷ b ∷ c ∷ []))
url_safe_decode (a ∷ b ∷ c ∷ d ∷ s) =
    safe_block (values_of (a ∷ b ∷ c ∷ d ∷ [])) (url_safe_decode s)

-- The two calls of std::replace on a character.
abbrev pub plain_char : ℕ → ℕ
plain_char c = if c == b'-' then b'+' else if c == b'_' then b'/' else c

-- SafeBase64ToBase64
unfoldable pub safe_base64_to_base64 : List ℕ → List ℕ
safe_base64_to_base64 url64 =
    let text = map plain_char url64 in text ++ replicate ((4 - length text % 4) % 4) b'='
