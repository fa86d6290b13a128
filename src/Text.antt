-- ===== src/Text.antt =====
-- src/common/string_util.cpp and string_util.h: letters, hex digits, trimming and splitting. A string
-- is the list of its bytes, each below 256; the C locale is that of isalnum and isspace.
pub mod Hex
pub mod Url
pub mod Split
pub mod Base64
pub mod SafeBase64
use libnbf.Prelude.{
  ℕ, zero, suc, ◌+◌, ◌-◌, ◌*◌, ◌/◌, ◌%◌, ◌<◌, Bool, true, false, not, ◌&&◌, ◌||◌, List, [], ◌∷◌,
  ◌++◌, map, Option, none, some, leb, ltb, ◌==◌, if◌then◌else◌, length,
}
use libnbf.Prelude.Clib.{is_space}

abbrev pub AllBytes : List ℕ → Type 0
AllBytes [] = Unit
AllBytes (x ∷ xs) = (x < 256) × AllBytes xs

-- The bodies of the loops of ToLow and ToUpper.
abbrev pub low : ℕ → ℕ
low c = if leb b'A' c && leb c b'Z' then c + 32 else c

abbrev pub upper : ℕ → ℕ
upper c = if leb b'a' c && leb c b'z' then c - 32 else c

unfoldable pub to_low : List ℕ → List ℕ
to_low src = map low src

unfoldable pub to_upper : List ℕ → List ℕ
to_upper src = map upper src

unfoldable pub to_hex : ℕ → ℕ
to_hex x = if ltb 9 x then (x + 55) % 256 else x + 48

unfoldable pub from_hex : ℕ → ℕ
from_hex x =
    if leb b'A' x && leb x b'Z'
    then x - b'A' + 10
    else if leb b'a' x && leb x b'z'
    then x - b'a' + 10
    else if leb b'0' x && leb x b'9'
    then x - b'0'
    else 0

abbrev pub is_alnum : ℕ → Bool
is_alnum c = (leb b'0' c && leb c b'9') || (leb b'A' c && leb c b'Z') || (leb b'a' c && leb c b'z')

-- The bytes that UrlEncode leaves as they are.
abbrev pub is_unreserved : ℕ → Bool
is_unreserved c = is_alnum c || (c == b'-') || (c == b'_') || (c == b'.') || (c == b'~')

abbrev pub percent : ℕ → List ℕ
percent c = b'%' ∷ to_hex (c / 16) ∷ to_hex (c % 16) ∷ []

-- The loop of UrlEncode without the conversion to unicode.
unfoldable pub url_encode : List ℕ → List ℕ
url_encode [] = []
url_encode (c ∷ s) =
    (if is_unreserved c then c ∷ [] else if c == b' ' then b'+' ∷ [] else percent c) ++ url_encode s

-- UrlEncode_ext
unfoldable pub url_encode_ext : List ℕ → List ℕ
url_encode_ext [] = []
url_encode_ext (c ∷ s) =
    (if is_unreserved c then c ∷ [] else if c == b' ' then b'%' ∷ b'2' ∷ b'0' ∷ [] else percent c)
    ++ url_encode_ext s

abbrev pub emit : ℕ → Option (List ℕ) → Option (List ℕ)
emit c none = none
emit c (some s) = some (c ∷ s)

-- The loop of UrlDecode without the conversion to unicode, and what it does behind a '%'. The zero
-- behind the text is read as a digit; none is a read behind that zero.
unfoldable mutual
  pub url_decode : List ℕ → Option (List ℕ)
  url_decode [] = some []
  url_decode (c ∷ s) = elim (c == b'+') [
    | true ↦ emit b' ' (url_decode s)
    | false ↦ elim (c == b'%') [ true ↦ url_escape s | false ↦ emit c (url_decode s) ]
  ]

  pub url_escape : List ℕ → Option (List ℕ)
  url_escape [] = none
  url_escape (h ∷ []) = some ((from_hex h * 16) % 256 ∷ [])
  url_escape (h ∷ l ∷ s) = emit ((from_hex h * 16 + from_hex l) % 256) (url_decode s)

-- The digits of BinaryTo16Hex.
abbrev pub hex_str : ℕ → ℕ
hex_str x = if ltb x 10 then x + 48 else x + 87

unfoldable pub binary_to_16_hex : List ℕ → List ℕ
binary_to_16_hex [] = []
binary_to_16_hex (c ∷ s) = hex_str (c / 16 % 16) ∷ hex_str (c % 16) ∷ binary_to_16_hex s

unfoldable pub ltrim : List ℕ → List ℕ
ltrim [] = []
ltrim (c ∷ s) = let rest = ltrim s in if is_space c then rest else c ∷ s

-- rtrim: what stands up to the last byte that is no space.
unfoldable pub rtrim : List ℕ → List ℕ
rtrim [] = []
rtrim (c ∷ s) = elim (rtrim s) [ [] ↦ if is_space c then [] else c ∷ [] | d ∷ t ↦ c ∷ d ∷ t ]

unfoldable pub trim : List ℕ → List ℕ
trim s = ltrim (rtrim s)

-- str.find_first_of(delim, s) on the text from `s` on: the segment before the delimiter, and the text
-- behind it, if there is one.
unfoldable pub cut_at : ℕ → List ℕ → List ℕ × Option (List ℕ)
cut_at delim [] = ([], none)
cut_at delim (c ∷ s) =
    let rest = cut_at delim s in if c == delim then ([], some s) else (c ∷ rest.0, rest.1)

abbrev pub keep : Bool → List ℕ → List (List ℕ) → List (List ℕ)
keep ignore_empty [] ret = if ignore_empty then ret else [] ∷ ret
keep ignore_empty (c ∷ s) ret = (c ∷ s) ∷ ret

-- The loop of Split into strings on what is left of the text, as far as the fuel goes.
unfoldable pub split_from : ℕ → ℕ → Bool → List ℕ → List (List ℕ)
split_from zero delim ignore_empty str = []
split_from (suc fuel) delim ignore_empty str =
    let seg = cut_at delim str in
    keep ignore_empty seg.0
      (elim seg.1 [ none ↦ [] | some rest ↦ split_from fuel delim ignore_empty rest ])

-- Split of a vector `ret`, which stays as it is where the text is empty.
unfoldable pub split : List (List ℕ) → List ℕ → ℕ → Bool → List (List ℕ)
split ret [] delim ignore_empty = ret
split ret (c ∷ s) delim ignore_empty = split_from (length (c ∷ s) + 1) delim ignore_empty (c ∷ s)
