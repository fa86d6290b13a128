-- ===== src/Text/Hex.antt =====
-- The hex digits of ToHex, FromHex and BinaryTo16Hex.
use libnbf.Prelude.{ℕ, ◌+◌, ◌*◌, ◌/◌, ◌%◌, ◌<◌, ◌≡◌, refl, ap₂, List, [], ◌∷◌, arith}
use libnbf.Text.{AllBytes, to_hex, from_hex, hex_str, binary_to_16_hex}

pub from_hex-to_hex : (x : ℕ) → x < 16 → from_hex (to_hex x) ≡ x
unfolding from_hex to_hex
from_hex-to_hex x h = ground arith

from_hex-hex_str : (x : ℕ) → x < 16 → from_hex (hex_str x) ≡ x
unfolding from_hex
from_hex-hex_str x h = ground arith

-- The bytes that pairs of hex digits stand for.
abbrev pub from_pairs : List ℕ → List ℕ
from_pairs [] = []
from_pairs (h ∷ []) = []
from_pairs (h ∷ l ∷ s) = (from_hex h * 16 + from_hex l) ∷ from_pairs s

-- The pairs of digits that BinaryTo16Hex writes for a string of bytes stand for those bytes.
pub from_pairs-binary_to_16_hex : (s : List ℕ) → AllBytes s → from_pairs (binary_to_16_hex s) ≡ s
unfolding binary_to_16_hex
from_pairs-binary_to_16_hex [] b = refl
from_pairs-binary_to_16_hex (c ∷ s) b =
    let high = from_hex-hex_str (c / 16 % 16) (omega arith) in
    let low = from_hex-hex_str (c % 16) (omega arith) in
    ap₂ (λ x xs. x ∷ xs) (omega (arith, high, low)) (from_pairs-binary_to_16_hex s b.1)
