-- ===== src/IniFiles/Load.antt =====
-- Open and LoadFromBuffer: the loop over the lines. The section that the loop fills is held by its
-- name: pSection always points into the map, or is null.
use libnbf.Prelude.{
  ℕ, Bool, true, false, ◌||◌, ◌&&◌, List, [], ◌∷◌, ◌++◌, Option, none, some, ltb, ◌==◌,
  if◌then◌else◌, length,
}
use libnbf.Prelude.TextMap.{TextMap, find, insert, replace}
use libnbf.Text.{cut_at}
use libnbf.IniFiles.{
  CRecord, CSection, CIniFileS, Disk, new_record, trim, cc_record, is_some, clear,
}

-- The variables of the loop, with the sections so far.
pub record Loader : Type 0 where
  pub sections : TextMap CSection
  pub cur_sec : List ℕ
  pub comments : List ℕ
  pub rec : CRecord
  pub section : Option (List ℕ)

abbrev pub fresh_loader : TextMap CSection → Loader
fresh_loader m = record {
  sections = m;
  cur_sec = [];
  comments = [];
  rec = new_record;
  section = none;
}

-- The lines of a text: the first, and those behind it. The last has no end of line.
unfoldable pub lines : List ℕ → List ℕ × List (List ℕ)
lines [] = ([], [])
lines (c ∷ s) =
    let rest = lines s in if c == 10 then ([], rest.0 ∷ rest.1) else (c ∷ rest.0, rest.1)

-- The lines but for the last.
unfoldable pub ended : List ℕ → List (List ℕ) → List (List ℕ)
ended line [] = []
ended line (next ∷ more) = line ∷ ended next more

-- A comment line.
abbrev pub add_comment : Loader → List ℕ → Loader
add_comment l line = record l { comments = l.comments ++ (line ++ (10 ∷ [])) }

abbrev pub uncomment : Loader → Loader
uncomment l = record l { rec = record l.rec { c_commented = cc_record } }

-- A line that names a section, without its brackets.
unfoldable pub start_section : Loader → List ℕ → Loader
start_section l line =
    let name : List ℕ = trim line in
    let started : CSection = record {
      section_name = name;
      section_comments = trim (l.comments);
      section_commented = l.rec.c_commented;
      map_kv = [];
    } in
    let inserted : TextMap CSection × Bool = insert name started (l.sections) in
    record l {
      sections = inserted.0;
      cur_sec = name;
      comments = [];
      section = if inserted.1 then some name else none;
    }

-- A line with a '=': its parts go to the record.
unfoldable pub read_entry : Loader → List ℕ → Loader
read_entry l line =
    let cut : List ℕ × Option (List ℕ) = cut_at b'=' line in
    elim (cut.1) [
      | none ↦ l
      | some value ↦ record l {
        comments = [];
        rec = record l.rec {
          str_sec_name = l.cur_sec;
          str_key = trim (cut.0);
          str_value = trim value;
          str_comments = trim (l.comments);
        };
      }
    ]

-- The section of the record, made where there is none.
unfoldable pub need_section : Loader → Loader
need_section l = elim (l.section) [
  | some name ↦ l
  | none ↦
      let name : List ℕ = l.rec.str_sec_name in
      let started : CSection = record {
        section_name = name;
        section_comments = l.rec.str_comments;
        section_commented = l.rec.c_commented;
        map_kv = [];
      } in
      let inserted : TextMap CSection × Bool = insert name started (l.sections) in
      record l { sections = inserted.0; section = if inserted.1 then some name else none }
]

-- pSection->mapKV.insert: the record stays the loop's where its key is there.
unfoldable pub add_to : Loader → List ℕ → CSection → Loader
add_to l name into =
    let inserted : TextMap CRecord × Bool = insert (l.rec.str_key) (l.rec) (into.map_kv) in
    if inserted.1
    then record l {
      sections = replace name (record into { map_kv = inserted.0 }) (l.sections);
      rec = new_record;
    }
    else l

unfoldable pub add_record : Loader → Loader
unfolding add_to
add_record l = elim (l.section) [
  | none ↦ l
  | some name ↦ elim (find name (l.sections)) [ none ↦ l | some into ↦ add_to l name into ]
]

-- A line that is neither blank nor a comment nor a section.
unfoldable pub entry_line : Loader → List ℕ → Loader
entry_line l line =
    let read : Loader = read_entry l line in
    elim (read.comments) [ [] ↦ add_record (need_section read) | c ∷ s ↦ read ]

abbrev pub is_comment : ℕ → Bool
is_comment c = (c == b'#') || (c == b';')

-- A trimmed line of Open.
unfoldable pub open_trimmed : Loader → List ℕ → Loader
open_trimmed l [] = l
open_trimmed l (c ∷ s) =
    if is_comment c
    then add_comment l (c ∷ s)
    else if ltb 2 (length (c ∷ s)) && ((c == b'[') && is_some ((cut_at b']' s).1))
    then start_section (uncomment l) ((cut_at b']' s).0)
    else entry_line (uncomment l) (c ∷ s)

abbrev pub open_line : Loader → List ℕ → Loader
open_line l line = open_trimmed l (trim line)

unfoldable pub open_lines : Loader → List ℕ → List (List ℕ) → Loader
open_lines l line [] = open_line l line
open_lines l line (next ∷ more) = open_lines (open_line l line) next more

-- Open: none for a null pointer, and for a file that is not there.
unfoldable pub open_ini : Option (List ℕ) → Disk → CIniFileS → CIniFileS × Bool
open_ini none disk ini = (ini, false)
open_ini (some []) disk ini = (ini, false)
open_ini (some (c ∷ path)) disk ini = elim (find (c ∷ path) disk) [
  | none ↦ (ini, false)
  | some text ↦
      let got : List ℕ × List (List ℕ) = lines text in
      let cleared : CIniFileS = clear ini in
      (
        record cleared {
          map_section = (open_lines (fresh_loader (cleared.map_section)) (got.0) (got.1)).sections;
          file_name = c ∷ path;
        },
        true,
      )
]

-- What a line of LoadFromBuffer does: it goes on, or erase(npos) throws std::out_of_range.
pub data Loading : Type 0 where
  going : Loader → Loading
  thrown : Loader → Loading

-- A '\r' at the end goes.
unfoldable pub drop_cr : List ℕ → List ℕ
drop_cr [] = []
drop_cr (c ∷ []) = if c == 13 then [] else c ∷ []
drop_cr (c ∷ d ∷ s) = c ∷ drop_cr (d ∷ s)

-- A trimmed line of LoadFromBuffer.
unfoldable pub load_trimmed : Loader → List ℕ → Loading
load_trimmed l [] = going l
load_trimmed l (c ∷ s) =
    if is_comment c
    then going (add_comment l (c ∷ s))
    else if c == b'['
    then elim ((cut_at b']' s).1) [
      | none ↦ thrown (uncomment l)
      | some behind ↦ going (start_section (uncomment l) ((cut_at b']' s).0))
    ]
    else going (entry_line (uncomment l) (c ∷ s))

unfoldable pub load_line : Loader → List ℕ → Loading
load_line l [] = going l
load_line l (c ∷ s) = load_trimmed l (trim (drop_cr (c ∷ s)))

unfoldable pub load_lines : Loader → List (List ℕ) → Loading
load_lines l [] = going l
load_lines l (line ∷ more) = elim (load_line l line) [
  | going next ↦ load_lines next more
  | thrown at ↦ thrown at
]

abbrev pub loaded : CIniFileS → Loading → CIniFileS × Option Bool
loaded ini (going l) = (record ini { map_section = l.sections }, some true)
loaded ini (thrown l) = (record ini { map_section = l.sections }, none)

-- LoadFromBuffer: none where it throws.
unfoldable pub load_from_buffer : List ℕ → CIniFileS → CIniFileS × Option Bool
load_from_buffer [] ini = (ini, some false)
load_from_buffer (c ∷ s) ini =
    let got : List ℕ × List (List ℕ) = lines (c ∷ s) in
    let cleared : CIniFileS = clear ini in
    loaded cleared (load_lines (fresh_loader (cleared.map_section)) (ended (got.0) (got.1)))
