-- ===== src/Text/Base64/Digits.antt =====
-- The digits of base 64, and blocks of them.
use Prim.Native.Nat.{bit_or}
use libnbf.Prelude.{
  ℕ, ◌+◌, ◌*◌, ◌/◌, ◌%◌, ◌<◌, ◌≡◌, refl, ap₂, ◌∙◌, Bool, true, false, ◌||◌, not, List, [], ◌∷◌,
  arith, ◌==◌,
}
use libnbf.Prelude.Bytes.{Checked, checked, same_below, bit_or-quad, bit_or-nibble, bit_or-high}
use libnbf.Text.Base64.{digit, value, encode_block, decode_block, is_blank}

pub value-digit : (v : ℕ) → v < 64 → value (digit v) ≡ v
unfolding value digit Checked
value-digit v h = same_below 64 (λ x. value (digit x)) (λ x. x) v refl h

-- A character that the decoder neither skips nor stops at.
abbrev pub IsPlain : ℕ → Type 0
IsPlain c = (is_blank c ≡ false) × ((c == b'=') ≡ false)

digit-plain : (v : ℕ) → v < 64 → not (is_blank (digit v) || (digit v == b'=')) ≡ true
unfolding digit Checked
digit-plain v h = checked 64 (λ x. not (is_blank (digit x) || (digit x == b'='))) v refl h

not_either : (a b : Bool) → not (a || b) ≡ true → (a ≡ false) × (b ≡ false)
not_either true b e = cc
not_either false true e = cc
not_either false false e = (refl, refl)

pub digit-IsPlain : (v : ℕ) → v < 64 → IsPlain (digit v)
digit-IsPlain v h = not_either _ _ (digit-plain v h)

-- What two, three or four characters with the values given stand for.
pub first_byte :
    (x y a : ℕ) → x < 64 → y < 64 → x * 4 + y / 16 ≡ a → bit_or (x * 4 % 256) (y / 16) ≡ a
first_byte x y a p q e =
    let small : x * 4 % 256 ≡ x * 4 = omega arith in
    rw small (bit_or-quad x (y / 16) p (omega arith) ∙ e)

pub second_byte : (y z b : ℕ) → z < 64 → y % 16 * 16 + z / 4 ≡ b → bit_or (y % 16 * 16) (z / 4) ≡ b
second_byte y z b q e = bit_or-nibble (y % 16) (z / 4) (omega arith) (omega arith) ∙ e

pub third_byte : (z w c : ℕ) → w < 64 → z % 4 * 64 + w ≡ c → bit_or (z % 4 * 64) w ≡ c
third_byte z w c q e = bit_or-high (z % 4) w (omega arith) q ∙ e

pub three_eq :
    {a b c x y z : ℕ} → a ≡ x → b ≡ y → c ≡ z → ◌≡◌ {A = List ℕ} (a ∷ b ∷ c ∷ []) (x ∷ y ∷ z ∷ [])
three_eq p q r = ap₂ (λ t u. t ∷ u) p (ap₂ (λ t u. t ∷ u ∷ []) q r)

-- A block of one to three bytes comes back.
pub decode_block-one : (a : ℕ) → a < 256 → decode_block (encode_block (a ∷ [])) ≡ a ∷ []
unfolding decode_block encode_block
decode_block-one a h =
    rw (value-digit (a / 4 % 64) (omega arith), value-digit (a * 16 % 64) (omega arith))
      (rw (first_byte (a / 4 % 64) (a * 16 % 64) a (omega arith) (omega arith) (omega arith)) refl)

pub decode_block-two :
    (a b : ℕ) → a < 256 → b < 256 → decode_block (encode_block (a ∷ b ∷ [])) ≡ a ∷ b ∷ []
unfolding decode_block encode_block
decode_block-two a b h k =
    rw
      (
        value-digit (a / 4 % 64) (omega arith),
        value-digit ((a * 16 + b / 16) % 64) (omega arith),
        value-digit (b * 4 % 64) (omega arith),
      )
      (ap₂ (λ p q. p ∷ q ∷ [])
        (first_byte (a / 4 % 64) ((a * 16 + b / 16) % 64) a (omega arith) (omega arith)
          (omega arith))
        (second_byte ((a * 16 + b / 16) % 64) (b * 4 % 64) b (omega arith) (omega arith)))

pub decode_block-three :
    (a b c : ℕ)
    → a < 256
    → b < 256
    → c < 256
    → decode_block (encode_block (a ∷ b ∷ c ∷ [])) ≡ a ∷ b ∷ c ∷ []
unfolding decode_block encode_block
decode_block-three a b c h k l =
    rw
      (
        value-digit (a / 4 % 64) (omega arith),
        value-digit ((a * 16 + b / 16) % 64) (omega arith),
        value-digit ((b * 4 + c / 64) % 64) (omega arith),
        value-digit (c % 64) (omega arith),
      )
      (three_eq
        (first_byte (a / 4 % 64) ((a * 16 + b / 16) % 64) a (omega arith) (omega arith)
          (omega arith))
        (second_byte ((a * 16 + b / 16) % 64) ((b * 4 + c / 64) % 64) b (omega arith) (omega arith))
        (third_byte ((b * 4 + c / 64) % 64) (c % 64) c (omega arith) (omega arith)))
