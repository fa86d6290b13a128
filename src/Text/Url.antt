-- ===== src/Text/Url.antt =====
-- UrlEncode, UrlEncode_ext and UrlDecode.
use libnbf.Prelude.{
  ℕ, ◌+◌, ◌*◌, ◌/◌, ◌%◌, ◌<◌, ◌≡◌, refl, ap, ◌∙◌, true, false, List, [], ◌∷◌, ◌++◌, some, arith,
  ◌==◌, if◌then◌else◌, Bool-cases, inl, inr,
}
use libnbf.Text.{
  AllBytes, to_hex, from_hex, is_unreserved, percent, url_encode, url_encode_ext, emit, url_decode,
  url_escape,
}
use libnbf.Text.Hex.{from_hex-to_hex}

decode-plain :
    (c : ℕ) (s : List ℕ)
    → (c == b'+') ≡ false
    → (c == b'%') ≡ false
    → url_decode (c ∷ s) ≡ emit c (url_decode s)
unfolding url_decode
decode-plain c s p q = rw (p, url_decode) (rw q refl)

decode-percent :
    (c : ℕ) (s : List ℕ) → c < 256 → url_decode (percent c ++ s) ≡ emit c (url_decode s)
unfolding url_decode url_escape
decode-percent c s h =
    let high = from_hex-to_hex (c / 16) (omega arith) in
    let low = from_hex-to_hex (c % 16) (omega arith) in
    let whole : (from_hex (to_hex (c / 16)) * 16 + from_hex (to_hex (c % 16))) % 256 ≡ c =
      omega (arith, high, low) in
    ap (λ x. emit x (url_decode s)) whole

unreserved-plain : (c : ℕ) → is_unreserved c ≡ true → ((c == b'+') ≡ false) × ((c == b'%') ≡ false)
unreserved-plain c u = ground arith

decode-plus :
    (c : ℕ) (s : List ℕ) → (c == b' ') ≡ true → url_decode (b'+' ∷ s) ≡ emit c (url_decode s)
unfolding url_decode
decode-plus c s e = let same : b' ' ≡ c = ground arith in ap (λ x. emit x (url_decode s)) same

decode-space :
    (c : ℕ) (s : List ℕ)
    → (c == b' ') ≡ true
    → url_decode (b'%' ∷ b'2' ∷ b'0' ∷ s) ≡ emit c (url_decode s)
unfolding url_decode url_escape from_hex
decode-space c s e = let same : b' ' ≡ c = ground arith in ap (λ x. emit x (url_decode s)) same

-- The text `written` for a byte is read as that byte.
IsCode : ℕ → List ℕ → Type 0
IsCode c written = (s : List ℕ) → url_decode (written ++ s) ≡ emit c (url_decode s)

byte_back :
    (c : ℕ) (space : List ℕ)
    → c < 256
    → ((c == b' ') ≡ true → IsCode c space)
    → IsCode c (if is_unreserved c then c ∷ [] else if c == b' ' then space else percent c)
unfolding IsCode
byte_back c space h w s = elim (Bool-cases (is_unreserved c)) [
  | inl u ↦ rw u (decode-plain c s (unreserved-plain c u).0 (unreserved-plain c u).1)
  | inr other ↦ elim (Bool-cases (c == b' ')) [
    | inl blank ↦ rw (other, blank) (w blank s)
    | inr coded ↦ rw (other, coded) (decode-percent c s h)
  ]
]

decode-encode : (s : List ℕ) → AllBytes s → url_decode (url_encode s) ≡ some s
unfolding url_encode url_decode IsCode
decode-encode [] b = refl
decode-encode (c ∷ s) b =
    byte_back c (b'+' ∷ []) b.0 (λ e t. decode-plus c t e) (url_encode s)
    ∙ ap (emit c) (decode-encode s b.1)

decode-encode_ext : (s : List ℕ) → AllBytes s → url_decode (url_encode_ext s) ≡ some s
unfolding url_encode_ext url_decode IsCode
decode-encode_ext [] b = refl
decode-encode_ext (c ∷ s) b =
    byte_back c (b'%' ∷ b'2' ∷ b'0' ∷ []) b.0 (λ e t. decode-space c t e) (url_encode_ext s)
    ∙ ap (emit c) (decode-encode_ext s b.1)

-- UrlDecode of what UrlEncode or UrlEncode_ext makes of a string of bytes gives the string back, and
-- reads no byte past the text.
pub url_decode-url_encode :
    (s : List ℕ)
    → AllBytes s
    → (url_decode (url_encode s) ≡ some s) × (url_decode (url_encode_ext s) ≡ some s)
url_decode-url_encode s b = (decode-encode s b, decode-encode_ext s b)
