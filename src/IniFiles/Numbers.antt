-- ===== src/IniFiles/Numbers.antt =====
-- The overloads of SetValue for numbers, and GetValueLong. The text of a double by "%f" is an argument.
use libnbf.Prelude.{ℕ, suc, Bool, List, ◌∷◌, none, some, take}
use libnbf.Prelude.Clib.{ℤ, pos, negsuc, print_64, print_unsigned, strtoll}
use libnbf.IniFiles.{CIniFileS, Disk, get_record}
use libnbf.IniFiles.Edit.{Edited, set_value}

-- "%d" and "%ld", of at most 20 bytes.
unfoldable pub print_signed : ℤ → List ℕ
print_signed (pos n) = print_64 n
print_signed (negsuc n) = b'-' ∷ print_64 (suc n)

-- atol, or the default.
unfoldable pub get_value_long : List ℕ → List ℕ → ℤ → CIniFileS → ℤ
get_value_long sec key default ini = elim (get_record sec key ini) [
  | none ↦ default
  | some rec ↦ (strtoll (rec.str_value)).0
]

module _ (opens : List ℕ → Bool) where
  -- SetValue of an int and of a long.
  unfoldable pub set_value_signed : List ℕ → ℤ → List ℕ → Bool → CIniFileS → Disk → Edited
  unfolding print_signed
  set_value_signed key value sec save ini disk =
      set_value opens key (print_signed value) sec save ini disk

  unfoldable pub set_value_unsigned : List ℕ → ℕ → List ℕ → Bool → CIniFileS → Disk → Edited
  set_value_unsigned key value sec save ini disk =
      set_value opens key (print_unsigned value) sec save ini disk

  -- The room holds 254 bytes of the text.
  unfoldable pub set_value_double : List ℕ → List ℕ → List ℕ → Bool → CIniFileS → Disk → Edited
  set_value_double key printed sec save ini disk =
      set_value opens key (take 254 printed) sec save ini disk
