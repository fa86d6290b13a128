-- ===== src/Prelude/Clib.antt =====
-- Functions of the C library: strtoll in base 10, and the decimal numbers of sprintf.
use Prim.Native.Nat.{ℕ, zero, suc, ◌+◌, ◌-◌, ◌*◌, ◌/◌, ◌%◌, ◌^◌, min}
use mathlib.Core.Bool.{Bool, true, false, ◌&&◌, ◌||◌}
use mathlib.Core.List.{List, [], ◌∷◌}
use libnbf.Prelude.Tests.{leb, ltb, ◌==◌, if◌then◌else◌}
use libnbf.Prelude.Lists.{drop}

-- The integers, over the native numbers.
pub data ℤ : Type 0 where
  pos : ℕ → ℤ
  negsuc : ℕ → ℤ

abbrev pub is_space : ℕ → Bool
is_space x = (x == 32) || (leb 9 x && leb x 13)

abbrev pub is_digit : ℕ → Bool
is_digit x = leb 48 x && leb x 57

unfoldable pub spaces : List ℕ → ℕ
spaces [] = 0
spaces (x ∷ xs) = let rest = spaces xs in if is_space x then suc rest else 0

-- The value and the number of the digits read, from those read before.
unfoldable pub digits : ℕ → ℕ → List ℕ → ℕ × ℕ
digits value count [] = (value, count)
digits value count (x ∷ xs) =
    let rest = digits (value * 10 + (x - 48)) (count + 1) xs in
    if is_digit x then rest else (value, count)

abbrev pub signed : Bool → ℕ → ℤ
signed true zero = pos 0
signed true (suc n) = negsuc (min n (2 ^ 63 - 1))
signed false n = pos (min n (2 ^ 63 - 1))

abbrev pub with_sign : Bool → ℕ → ℕ × ℕ → ℤ × ℕ
with_sign negative skipped (value, zero) = (pos 0, 0)
with_sign negative skipped (value, suc n) = (signed negative value, skipped + suc n)

unfoldable pub number : ℕ → List ℕ → ℤ × ℕ
number skipped [] = (pos 0, 0)
number skipped (x ∷ xs) =
    if x == 45
    then with_sign true (skipped + 1) (digits 0 0 xs)
    else if x == 43
    then with_sign false (skipped + 1) (digits 0 0 xs)
    else with_sign false skipped (digits 0 0 (x ∷ xs))

-- The number, and how many bytes it takes.
unfoldable pub strtoll : List ℕ → ℤ × ℕ
strtoll xs = number (spaces xs) (drop (spaces xs) xs)

-- The decimal digits of a number, in front of those given; the fuel is more than their number.
unfoldable pub decimal_on : ℕ → ℕ → List ℕ → List ℕ
decimal_on zero n ds = ds
decimal_on (suc fuel) n ds =
    let rest = decimal_on fuel (n / 10) ((48 + n % 10) ∷ ds) in
    if ltb n 10 then (48 + n) ∷ ds else rest

-- "%u" of a number below 2 ^ 32, which has ten digits at most.
unfoldable pub print_unsigned : ℕ → List ℕ
print_unsigned n = decimal_on 10 (n % 2 ^ 32) []

-- The decimal digits of a number below 2 ^ 64, which has twenty at most.
unfoldable pub print_64 : ℕ → List ℕ
print_64 n = decimal_on 20 (n % 2 ^ 64) []
