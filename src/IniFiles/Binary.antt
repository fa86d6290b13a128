-- ===== src/IniFiles/Binary.antt =====
-- WriteProfileBinary and GetProfileBinary: each byte as two letters from 'A' on, the low half first.
use libnbf.Prelude.{
  ℕ, ◌+◌, ◌-◌, ◌*◌, ◌/◌, ◌%◌, Bool, false, List, [], ◌∷◌, Option, none, some, length,
}
use libnbf.IniFiles.{CIniFileS, Disk, get_value}
use libnbf.IniFiles.Edit.{Edited, set_value}

-- The loop of WriteProfileBinary.
unfoldable pub nibbles : List ℕ → List ℕ
nibbles [] = []
nibbles (c ∷ s) = (c % 16 + b'A') ∷ (c / 16 % 16 + b'A') ∷ nibbles s

-- The loop of GetProfileBinary with the bytes that it stores: ((str[i+1] - 'A') << 4) + (str[i] - 'A'),
-- cut to a byte. Behind a text of odd length stands the terminating zero; the byte that comes of it is
-- written behind the room of nLen / 2 bytes.
unfoldable pub from_nibbles : List ℕ → List ℕ
from_nibbles [] = []
from_nibbles (lo ∷ []) = ((0 + 256 - b'A') * 16 + lo + 256 - b'A') % 256 ∷ []
from_nibbles (lo ∷ hi ∷ s) = ((hi + 256 - b'A') * 16 + lo + 256 - b'A') % 256 ∷ from_nibbles s

-- The room that GetProfileBinary allocates, and the bytes it stores: none where it returns false.
unfoldable pub get_profile_binary : List ℕ → List ℕ → CIniFileS → Option (ℕ × List ℕ)
get_profile_binary sec key ini = elim (ini.file_name) [
  | [] ↦ none
  | c ∷ path ↦ elim (get_value sec key [] ini) [
    | [] ↦ none
    | d ∷ str ↦ some (length (d ∷ str) / 2, from_nibbles (d ∷ str))
  ]
]

module _ (opens : List ℕ → Bool) where
  -- SetValue is called with the section for its key, the key for its value and the text for its
  -- section.
  unfoldable pub write_profile_binary : List ℕ → List ℕ → List ℕ → Bool → CIniFileS → Disk → Edited
  unfolding set_value
  write_profile_binary sec key [] save ini disk = (ini, disk, false)
  write_profile_binary sec key (c ∷ data_bytes) save ini disk =
      set_value opens sec key (nibbles (c ∷ data_bytes)) save ini disk
