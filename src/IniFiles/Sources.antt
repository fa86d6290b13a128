-- ===== src/IniFiles/Sources.antt =====
-- Open and LoadFromBuffer on the same text.
use libnbf.Prelude.{ℕ, true, List, [], ◌∷◌, ◌≡◌, ◌≢◌, ◌⊎◌, ◌<◌, length}
use libnbf.Text.{cut_at}
use libnbf.IniFiles.{trim, is_some}

-- A trimmed line that begins with '[' has more than two bytes and a ']'.
abbrev pub Bracketed : List ℕ → Type 0
Bracketed [] = Unit
Bracketed (c ∷ s) = (c ≢ b'[') ⊎ ((2 < length (c ∷ s)) × (is_some ((cut_at b']' s).1) ≡ true))

abbrev pub AllBracketed : List (List ℕ) → Type 0
AllBracketed [] = Unit
AllBracketed (s ∷ ss) = Bracketed (trim s) × AllBracketed ss

abbrev pub last_line : List ℕ → List (List ℕ) → List ℕ
last_line line [] = line
last_line line (next ∷ more) = last_line next more
