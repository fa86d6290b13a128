-- ===== src/IniFiles/Clean.antt =====
-- Texts that SaveToFile writes so that Open reads them as they were.
pub mod Trims
use libnbf.Prelude.{ℕ, Bool, true, false, List, [], ◌∷◌, ◌≡◌, ◌≢◌}
use libnbf.Prelude.TextMap.{TextMap, IsSorted}
use libnbf.Text.Split.{Lacks, join}
use libnbf.IniFiles.{CRecord, CSection, is_trimmed, cc_record}
use libnbf.IniFiles.Load.{is_comment}

-- The first byte is none that is trimmed.
abbrev pub Starts : List ℕ → Type 0
Starts [] = Unit
Starts (c ∷ s) = is_trimmed c ≡ false

-- The last byte is none that is trimmed.
abbrev pub Ends : List ℕ → Type 0
Ends [] = Unit
Ends (c ∷ []) = is_trimmed c ≡ false
Ends (c ∷ d ∷ s) = Ends (d ∷ s)

-- A text on one line with no blank at its ends.
abbrev pub Tight : List ℕ → Type 0
Tight s = Starts s × Ends s × Lacks 10 s

abbrev pub CommentLine : List ℕ → Type 0
CommentLine [] = ⊥
CommentLine (c ∷ s) = (is_comment c ≡ true) × Tight (c ∷ s)

abbrev pub AllCommentLines : List (List ℕ) → Type 0
AllCommentLines [] = Unit
AllCommentLines (s ∷ ss) = CommentLine s × AllCommentLines ss

-- A comment: lines that begin with '#' or ';', and a newline between two of them.
abbrev pub Comments : List ℕ → Type 0
Comments text = (ls : List (List ℕ)) × (text ≡ join 10 ls) × AllCommentLines ls

-- A key is not read as a comment or as a section.
abbrev pub PlainKey : List ℕ → Type 0
PlainKey [] = Unit
PlainKey (c ∷ s) = (is_comment c ≡ false) × (c ≢ b'[')

pub record CleanRecord (sec key : List ℕ) (rec : CRecord) : Type 0 where
  pub its_section : rec.str_sec_name ≡ sec
  pub its_key : rec.str_key ≡ key
  pub unmarked : rec.c_commented ≡ cc_record
  pub key_tight : Tight key
  pub key_plain : PlainKey key
  pub key_whole : Lacks b'=' key
  pub value_tight : Tight (rec.str_value)
  pub remarks : Comments (rec.str_comments)

abbrev pub AllCleanRecords : List ℕ → TextMap CRecord → Type 0
AllCleanRecords sec [] = Unit
AllCleanRecords sec (e ∷ m) = CleanRecord sec e.0 e.1 × AllCleanRecords sec m

pub record CleanSection (sec : List ℕ) (section : CSection) : Type 0 where
  pub its_name : section.section_name ≡ sec
  pub section_unmarked : section.section_commented ≡ cc_record
  pub name_tight : Tight sec
  pub name_whole : Lacks b']' sec
  pub named : sec ≢ []
  pub section_remarks : Comments (section.section_comments)
  pub sorted_records : IsSorted (section.map_kv)
  pub records : AllCleanRecords sec (section.map_kv)

abbrev pub AllCleanSections : TextMap CSection → Type 0
AllCleanSections [] = Unit
AllCleanSections (e ∷ m) = CleanSection e.0 e.1 × AllCleanSections m

abbrev pub IsClean : TextMap CSection → Type 0
IsClean m = IsSorted m × AllCleanSections m
