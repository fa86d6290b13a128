-- ===== src/Prelude/Bytes.antt =====
-- Text literals as bytes, bitwise or, and checks of every value below a bound.
use Prim.Native.Nat.{ℕ, zero, suc, ◌+◌, ◌*◌, ◌<◌, bit_or}
use Prim.Native.Char.{code}
use Prim.Native.String.{String}
use mathlib.Core.Bool.{Bool, true, false}
use mathlib.Core.List.{List, [], ◌∷◌}
use mathlib.Core.Path.{◌≡◌, refl}
use native.Mathlib.Omega.{arith}
use libnbf.Prelude.Tests.{◌==◌, ==_iff, if◌then◌else◌, Bool-cases}
use mathlib.Core.Logic.{inl, inr}

-- The code points of a literal: its bytes, if it is ASCII.
abbrev pub codes : String → List ℕ
codes String.[] = []
codes (String.◌∷◌ c s) = code c ∷ codes s

-- Whether a test succeeds on all of the first numbers.
holds_to : (ℕ → Bool) → ℕ → Bool
holds_to test zero = true
holds_to test (suc last) = let rest = holds_to test last in if test last then rest else false

holds_to_lem :
    (test : ℕ → Bool) (bound : ℕ) → holds_to test bound ≡ true → (y : ℕ) → y < bound → test y ≡ true
unfolding holds_to
holds_to_lem test zero e y h = absurd (omega arith)
holds_to_lem test (suc last) e y h = elim (Bool-cases (y == last)) [
  | inl here ↦ ground arith
  | inr before ↦ holds_to_lem test last (ground arith) y (ground arith)
]

-- A test of every value below `n` that succeeds.
unfoldable pub Checked : ℕ → (ℕ → Bool) → Type 0
unfolding holds_to
Checked n p = holds_to p n ≡ true

pub checked : (n : ℕ) (p : ℕ → Bool) (x : ℕ) → Checked n p → x < n → p x ≡ true
unfolding Checked
checked n p x h lt = holds_to_lem p n h x lt

pub same_below : (n : ℕ) (f g : ℕ → ℕ) (x : ℕ) → Checked n (λ y. f y == g y) → x < n → f x ≡ g x
same_below n f g x h lt = (==_iff (f x) (g x)).0 (checked n _ x h lt)

-- Fields of bits that do not meet, put together.
or_field :
    (k m w : ℕ)
    → Checked m (λ x. holds_to (λ y. bit_or (x * k) y == x * k + y) w)
    → (x y : ℕ) → x < m
    → y < w
    → bit_or (x * k) y ≡ x * k + y
or_field k m w h x y p q = (==_iff _ _).0 (holds_to_lem _ w (checked m _ x h p) y q)

pub bit_or-quad : (x y : ℕ) → x < 64 → y < 4 → bit_or (x * 4) y ≡ x * 4 + y
unfolding Checked
bit_or-quad = or_field 4 64 4 refl

pub bit_or-nibble : (x y : ℕ) → x < 16 → y < 16 → bit_or (x * 16) y ≡ x * 16 + y
unfolding Checked
bit_or-nibble = or_field 16 16 16 refl

pub bit_or-high : (x y : ℕ) → x < 4 → y < 64 → bit_or (x * 64) y ≡ x * 64 + y
unfolding Checked
bit_or-high = or_field 64 4 64 refl
