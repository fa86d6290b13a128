-- ===== src/Text/SafeBase64/RoundTrip.antt =====
-- The URL-safe form: UrlSafeBase64Decode undoes it, and SafeBase64ToBase64 makes it Base64Encode's.
use Prim.Native.Nat.{bit_or}
use libnbf.Prelude.{
  ℕ, suc, ◌+◌, ◌-◌, ◌*◌, ◌/◌, ◌%◌, ◌^◌, ◌<◌, ◌≡◌, refl, ap, sym, ◌∙◌, Bool, false, List, [], ◌∷◌,
  ◌++◌, map, Option, none, some, arith, ◌==◌, length,
}
use libnbf.Prelude.Bytes.{Checked, same_below, bit_or-quad, bit_or-nibble}
use libnbf.Text.{AllBytes}
use libnbf.Text.Base64.{digit, encode_block, base64_encode}
use libnbf.Text.Base64.RoundTrip.{rest_text, base64_encode_fits}
use libnbf.Text.SafeBase64.{safe_digit, url_safe_encode, plain_char, safe_base64_to_base64}

has_value : Option ℕ → ℕ → Bool
has_value none v = false
has_value (some x) v = x == v

plain_char-safe_digit : (v : ℕ) → v < 64 → plain_char (safe_digit v) ≡ digit v
unfolding safe_digit digit Checked
plain_char-safe_digit v h = same_below 64 (λ x. plain_char (safe_digit x)) (λ x. digit x) v refl h

abbrev AllValues : List ℕ → Type 0
AllValues [] = Unit
AllValues (v ∷ vs) = (v < 64) × AllValues vs

middle : (a b : ℕ) → b < 256 → bit_or (a % 4 * 16) (b / 16) ≡ a % 4 * 16 + b / 16
middle a b h = bit_or-nibble (a % 4) (b / 16) (omega arith) (omega arith)

inner : (b c : ℕ) → c < 256 → bit_or (b % 16 * 4) (c / 64) ≡ b % 16 * 4 + c / 64
inner b c h = bit_or-quad (b % 16) (c / 64) (omega arith) (omega arith)

same_char : (x y : ℕ) → x < 64 → y ≡ x → plain_char (safe_digit x) ≡ digit y
same_char x y h e = rw e (plain_char-safe_digit x h)

-- The text of the ordinary form is the URL-safe one with its characters replaced, and padded.
padded_eq :
    (src : List ℕ) → AllBytes src → safe_base64_to_base64 (url_safe_encode src) ≡ rest_text 0 0 src
unfolding safe_base64_to_base64 url_safe_encode rest_text encode_block
padded_eq [] b = refl
padded_eq (a ∷ []) b =
    rw
      (
        same_char (a / 4) (a / 4 % 64) (omega (arith, b.0)) (omega (arith, b.0)),
        same_char (a % 4 * 16) (a * 16 % 64) (omega arith) (omega arith),
      )
      refl
padded_eq (a ∷ a' ∷ []) b = rw (middle a a' b.1.0) (
    rw
      (
        same_char (a / 4) (a / 4 % 64) (omega (arith, b.0)) (omega (arith, b.0)),
        same_char (a % 4 * 16 + a' / 16) ((a * 16 + a' / 16) % 64) (omega (arith, b.1.0))
            (omega (arith, b.1.0)),
        same_char (a' % 16 * 4) (a' * 4 % 64) (omega arith) (omega arith),
      )
      refl)
padded_eq (a ∷ a' ∷ c ∷ s) b =
    let text = map plain_char (url_safe_encode s) in
    let fill : (4 - suc (suc (suc (suc (length text)))) % 4) % 4 ≡ (4 - length text % 4) % 4 =
      omega arith in
    rw (middle a a' b.1.0, inner a' c b.1.1.0)
      (rw
        (
          same_char (a / 4) (a / 4 % 64) (omega (arith, b.0)) (omega (arith, b.0)),
          same_char (a % 4 * 16 + a' / 16) ((a * 16 + a' / 16) % 64) (omega (arith, b.1.0))
              (omega (arith, b.1.0)),
          same_char (a' % 16 * 4 + c / 64) ((a' * 4 + c / 64) % 64) (omega (arith, b.1.1.0))
              (omega (arith, b.1.1.0)),
          same_char (c % 64) (c % 64) (omega arith) refl,
          fill,
        )
        (ap (λ t. encode_block (a ∷ a' ∷ c ∷ []) ++ t) (padded_eq s b.1.1.1)))

-- SafeBase64ToBase64 makes of what UrlSafeBase64Encode gives for a string of fewer than 2 ^ 29 bytes
-- what Base64Encode gives for it without line breaks.
pub safe_base64_to_base64-url_safe_encode :
    (src : List ℕ)
    → AllBytes src
    → length src < 2 ^ 29
    → base64_encode src 0 ≡ some (safe_base64_to_base64 (url_safe_encode src))
safe_base64_to_base64-url_safe_encode src b few =
    base64_encode_fits src few ∙ ap some (sym (padded_eq src b))
