-- ===== src/IniFiles/Save.antt =====
-- SaveToFile and SaveToStr: the text of the sections.
use libnbf.Prelude.{
  ℕ, Bool, true, false, List, [], ◌∷◌, ◌++◌, Option, none, some, ◌==◌, if◌then◌else◌,
}
use libnbf.Prelude.TextMap.{TextMap}
use libnbf.IniFiles.{CRecord, CSection, CIniFileS, Disk, write_file, cc_record}

abbrev pub newline : ℕ
newline = 10

-- A comment and the end of its line, if there is one.
abbrev pub comment_line : List ℕ → List ℕ
comment_line [] = []
comment_line (c ∷ s) = (c ∷ s) ++ (newline ∷ [])

abbrev pub record_line : CRecord → List ℕ
record_line rec = rec.str_key ++ (b'=' ∷ rec.str_value)

unfoldable pub save_records : TextMap CRecord → List ℕ
save_records [] = []
save_records (e ∷ m) =
    comment_line (e.1.str_comments) ++ (record_line (e.1) ++ (newline ∷ save_records m))

-- What SaveToFile writes.
unfoldable pub save_sections : TextMap CSection → List ℕ
save_sections [] = []
save_sections (e ∷ m) =
    comment_line (e.1.section_comments)
    ++ ((b'[' ∷ (e.1.section_name ++ (b']' ∷ [])))
        ++ (newline ∷ (save_records (e.1.map_kv) ++ save_sections m)))

module _ (opens : List ℕ → Bool) where
  -- SaveToFile: none for a null pointer. `opens` tells which paths can be written.
  unfoldable pub save_to_file : Option (List ℕ) → CIniFileS → Disk → Disk × Bool
  save_to_file path ini disk =
      let target : List ℕ = elim path [ none ↦ ini.file_name | some p ↦ p ] in
      if opens target
      then (write_file target (save_sections (ini.map_section)) disk, true)
      else (disk, false)

unfoldable pub record_strs : TextMap CRecord → List ℕ
record_strs [] = []
record_strs (e ∷ m) =
    comment_line (e.1.str_comments)
    ++ ((if e.1.c_commented == cc_record then [] else e.1.c_commented ∷ [])
        ++ (record_line (e.1) ++ record_strs m))

unfoldable pub section_strs : TextMap CSection → List ℕ
section_strs [] = []
section_strs (e ∷ m) =
    comment_line (e.1.section_comments)
    ++ ((b'[' ∷ (e.1.section_name ++ (b']' ∷ []))) ++ (record_strs (e.1.map_kv) ++ section_strs m))

unfoldable pub save_to_str : CIniFileS → List ℕ
save_to_str ini = elim (ini.map_section) [
  | [] ↦ []
  | e ∷ m ↦ section_strs (e ∷ m) ++ (newline ∷ [])
]
