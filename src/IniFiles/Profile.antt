-- ===== src/IniFiles/Profile.antt =====
-- The letters of WriteProfileBinary and the bytes of GetProfileBinary.
use libnbf.Prelude.{
  ℕ, ◌+◌, ◌-◌, ◌*◌, ◌/◌, ◌%◌, ◌<◌, Bool, List, [], ◌∷◌, some, length, ◌≡◌, ◌≢◌, refl, ap, ap₂, ◌∙◌,
  arith,
}
use libnbf.Prelude.TextMap.{same_text_refl}
use libnbf.Text.{AllBytes}
use libnbf.IniFiles.{CIniFileS, Disk, get_value}
use libnbf.IniFiles.Edit.{set_value, put_value}
use libnbf.IniFiles.Lookup.{get_record-set_value, set_value_lem, put_value-Puts, finish-Finishes}
use libnbf.IniFiles.Binary.{nibbles, from_nibbles, get_profile_binary}

byte_of_nibbles :
    (c : ℕ) → c < 256 → ((c / 16 % 16 + 65 + 256 - 65) * 16 + (c % 16 + 65) + 256 - 65) % 256 ≡ c
byte_of_nibbles c h = omega arith

from_nibbles-nibbles : (s : List ℕ) → AllBytes s → from_nibbles (nibbles s) ≡ s
unfolding from_nibbles nibbles
from_nibbles-nibbles [] h = refl
from_nibbles-nibbles (c ∷ s) h = ap₂ ◌∷◌ (byte_of_nibbles c h.0) (from_nibbles-nibbles s h.1)

length-nibbles : (s : List ℕ) → length (nibbles s) ≡ length s * 2
unfolding nibbles
length-nibbles [] = refl
length-nibbles (c ∷ s) = omega (arith, length-nibbles s)

get_profile_binary_lem :
    (sec key path str : List ℕ) (ini : CIniFileS)
    → ini.file_name ≡ path
    → get_value sec key [] ini ≡ str
    → path ≢ []
    → str ≢ []
    → get_profile_binary sec key ini ≡ some (length str / 2, from_nibbles str)
unfolding get_profile_binary
get_profile_binary_lem sec key [] str ini e f n m = absurd (n refl)
get_profile_binary_lem sec key (c ∷ path) [] ini e f n m = absurd (m refl)
get_profile_binary_lem sec key (c ∷ path) (d ∷ str) ini e f n m = ground arith

put_value-file_name :
    (key value sec : List ℕ) (ini : CIniFileS)
    → (put_value key value sec ini).0.file_name ≡ ini.file_name
unfolding put_value
put_value-file_name key value sec ini = ground arith

nibbles-ne : (s : List ℕ) → s ≢ [] → nibbles s ≢ []
unfolding nibbles
nibbles-ne [] n = absurd (n refl)
nibbles-ne (c ∷ s) n = λ e. cc

set_value-file_name :
    (opens : List ℕ → Bool) (key value sec : List ℕ) (save : Bool) (ini : CIniFileS) (disk : Disk)
    → ini.file_name ≢ []
    → (set_value opens key value sec save ini disk).0.file_name ≡ ini.file_name
set_value-file_name opens key value sec save ini disk n =
    ap (λ r. r.0.file_name)
      (set_value_lem opens key value sec save ini disk n ((put_value-Puts key value sec ini).1))
    ∙ ap (λ i. i.file_name) ((finish-Finishes opens save ((put_value key value sec ini).0) disk).0)
    ∙ put_value-file_name key value sec ini

get_value-set_value :
    (opens : List ℕ → Bool) (key value sec default : List ℕ) (save : Bool) (ini : CIniFileS)
    (disk : Disk)
    → ini.file_name ≢ []
    → get_value sec key default ((set_value opens key value sec save ini disk).0) ≡ value
unfolding get_value
get_value-set_value opens key value sec default save ini disk n = ground (
  arith,
  get_record-set_value opens sec key key value sec save ini disk n,
  same_text_refl sec,
  same_text_refl key,
)

-- GetProfileBinary gives back the bytes, and allocates room for as many, where SetValue has put their
-- letters under the key of the section.
pub get_profile_binary-nibbles :
    (opens : List ℕ → Bool) (sec key s : List ℕ) (save : Bool) (ini : CIniFileS) (disk : Disk)
    → ini.file_name ≢ []
    → s ≢ []
    → AllBytes s
    → get_profile_binary sec key ((set_value opens key (nibbles s) sec save ini disk).0)
      ≡ some (length s, s)
get_profile_binary-nibbles opens sec key s save ini disk n m b =
    get_profile_binary_lem sec key (ini.file_name) (nibbles s) _
      (set_value-file_name opens key (nibbles s) sec save ini disk n)
      (get_value-set_value opens key (nibbles s) sec [] save ini disk n) n (nibbles-ne s m)
    ∙ ap₂ (λ a c. some (a, c)) (omega (arith, length-nibbles s)) (from_nibbles-nibbles s b)
