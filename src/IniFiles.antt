-- ===== src/IniFiles.antt =====
-- src/common/ini_files.h and ini_files.cpp: the records and sections of a configuration file, and what
-- is read of them. A text is the list of its bytes; a text that comes from a char pointer holds no
-- zero. The maps never hold a null pointer, so that an entry is the section or the record itself.
pub mod Load
pub mod Save
pub mod Edit
pub mod Binary
pub mod Numbers
pub mod Lookup
pub mod Removal
pub mod Valid
pub mod Clean
pub mod RoundTrip
pub mod Sources
pub mod Profile
use libnbf.Prelude.{
  ℕ, zero, suc, ◌+◌, Bool, true, false, ◌||◌, List, [], ◌∷◌, ◌++◌, map, Option, none, some, ltb,
  ◌==◌, if◌then◌else◌, length,
}
use libnbf.Prelude.TextMap.{TextMap, find, place, replace}

pub record CRecord : Type 0 where
  pub str_sec_name : List ℕ
  pub str_key : List ℕ
  pub str_value : List ℕ
  pub str_comments : List ℕ
  pub c_commented : ℕ

pub record CSection : Type 0 where
  pub section_name : List ℕ
  pub section_comments : List ℕ
  pub section_commented : ℕ
  pub map_kv : TextMap CRecord

pub record CIniFileS : Type 0 where
  pub map_section : TextMap CSection
  pub file_name : List ℕ

-- CC_Pound, CC_SemiColon and CC_Record.
abbrev pub cc_pound : ℕ
cc_pound = b'#'

abbrev pub cc_semi_colon : ℕ
cc_semi_colon = b';'

abbrev pub cc_record : ℕ
cc_record = b' '

abbrev pub new_record : CRecord
new_record = record {
  str_sec_name = [];
  str_key = [];
  str_value = [];
  str_comments = [];
  c_commented = cc_record;
}

abbrev pub new_section : List ℕ → CSection
new_section name = record {
  section_name = name;
  section_comments = [];
  section_commented = cc_record;
  map_kv = [];
}

-- One of the bytes " \t\n\r".
abbrev pub is_trimmed : ℕ → Bool
is_trimmed c = (c == 32) || (c == 9) || (c == 10) || (c == 13)

-- The text from find_first_not_of on.
unfoldable pub from_first : List ℕ → List ℕ
from_first [] = []
from_first (c ∷ s) = let rest = from_first s in if is_trimmed c then rest else c ∷ s

-- The text up to find_last_not_of.
unfoldable pub to_last : List ℕ → List ℕ
to_last [] = []
to_last (c ∷ s) = elim (to_last s) [ [] ↦ if is_trimmed c then [] else c ∷ [] | d ∷ t ↦ c ∷ d ∷ t ]

-- _ini_Trim and _ini_TrimStr
unfoldable pub ini_trim : ℕ → List ℕ → List ℕ
ini_trim trim_dir s = elim (from_first s) [
  | [] ↦ []
  | c ∷ t ↦
      let left : List ℕ = if ltb trim_dir 2 then c ∷ t else s in
      if trim_dir == 1 then left else to_last left
]

abbrev pub trim : List ℕ → List ℕ
trim s = ini_trim 0 s

unfoldable pub clear : CIniFileS → CIniFileS
clear ini = record { map_section = []; file_name = [] }

unfoldable pub get_section_names : CIniFileS → List (List ℕ)
get_section_names ini = map (λ e. e.1.section_name) (ini.map_section)

unfoldable pub get_section : List ℕ → CIniFileS → Option CSection
get_section sec ini = find sec (ini.map_section)

abbrev pub is_some {ℓ} : {A : Type ℓ} → Option A → Bool
is_some none = false
is_some (some a) = true

unfoldable pub is_exist_section : List ℕ → CIniFileS → Bool
is_exist_section sec ini = is_some (find sec (ini.map_section))

unfoldable pub get_record : List ℕ → List ℕ → CIniFileS → Option CRecord
get_record sec key ini = elim (find sec (ini.map_section)) [
  | none ↦ none
  | some section ↦ find key (section.map_kv)
]

unfoldable pub is_exist_record : List ℕ → List ℕ → CIniFileS → Bool
is_exist_record sec key ini = elim (find sec (ini.map_section)) [
  | none ↦ false
  | some section ↦ is_some (find key (section.map_kv))
]

unfoldable pub get_value : List ℕ → List ℕ → List ℕ → CIniFileS → List ℕ
get_value sec key default ini = elim (get_record sec key ini) [
  | none ↦ default
  | some rec ↦ rec.str_value
]

unfoldable pub get_comments : List ℕ → List ℕ → CIniFileS → List ℕ
get_comments sec default ini = elim (get_section sec ini) [
  | none ↦ default
  | some section ↦ section.section_comments
]

-- GetComments of a record.
unfoldable pub get_record_comments : List ℕ → List ℕ → List ℕ → CIniFileS → List ℕ
get_record_comments sec key default ini = elim (get_record sec key ini) [
  | none ↦ default
  | some rec ↦ rec.str_comments
]

-- The files by their paths.
abbrev pub Disk : Type 0
Disk = TextMap (List ℕ)

unfoldable pub write_file : List ℕ → List ℕ → Disk → Disk
write_file path text disk = elim (find path disk) [
  | none ↦ place path text disk
  | some old ↦ replace path text disk
]
