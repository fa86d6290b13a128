-- ===== src/IniFiles/Valid/Loads.antt =====
-- Open and LoadFromBuffer leave maps in order.
use libnbf.Prelude.{
  ℕ, List, [], ◌∷◌, Option, none, some, Option-cases, Bool-cases, ◌≡◌, refl, inl, inr, arith,
}
use libnbf.Prelude.TextMap.{find, insert, find-AllEntries}
use libnbf.Text.{cut_at}
use libnbf.IniFiles.{CSection, CIniFileS, Disk, trim, clear}
use libnbf.IniFiles.Load.{
  Loader, Loading, going, thrown, loaded, fresh_loader, lines, ended, uncomment, start_section,
  read_entry, need_section, add_to, add_record, entry_line, open_trimmed, open_line, open_lines,
  open_ini, load_trimmed, load_line, load_lines, load_from_buffer, drop_cr,
}
use libnbf.IniFiles.Valid.{
  UnderKey, SectionIsValid, AreSections, IsValid, insert-Keeps, replace-Keeps,
}

abbrev AreLoaded : Loader → Type 0
AreLoaded l = AreSections (l.sections)

start_section-AreLoaded :
    (l : Loader) (line : List ℕ) → AreLoaded l → AreLoaded (start_section l line)
unfolding start_section
start_section-AreLoaded l line h = insert-Keeps SectionIsValid (trim line) _ (l.sections) (tt, tt) h

read_entry-sections : (l : Loader) (line : List ℕ) → (read_entry l line).sections ≡ l.sections
unfolding read_entry
read_entry-sections l line = ground arith

need_section-AreLoaded : (l : Loader) → AreLoaded l → AreLoaded (need_section l)
unfolding need_section
need_section-AreLoaded l h = elim (Option-cases (l.section)) [
  | inl e ↦ rw e (insert-Keeps SectionIsValid (l.rec.str_sec_name) _ (l.sections) (tt, tt) h)
  | inr (name, e) ↦ rw e h
]

add_to-AreLoaded :
    (l : Loader) (name : List ℕ) (into : CSection)
    → AreLoaded l
    → find name (l.sections) ≡ some into
    → AreLoaded (add_to l name into)
unfolding add_to
add_to-AreLoaded l name into h e =
    elim (Bool-cases ((insert (l.rec.str_key) (l.rec) (into.map_kv)).1)) [
      | inl added ↦ rw added (
          replace-Keeps SectionIsValid name _ (l.sections)
            (insert-Keeps UnderKey (l.rec.str_key) (l.rec) (into.map_kv) refl
              (find-AllEntries SectionIsValid name into (l.sections) h.1 e))
            h)
      | inr old ↦ rw old h
    ]

add_record-AreLoaded : (l : Loader) → AreLoaded l → AreLoaded (add_record l)
unfolding add_record
add_record-AreLoaded l h = elim (Option-cases (l.section)) [
  | inl e ↦ rw e h
  | inr (name, e) ↦ elim (Option-cases (find name (l.sections))) [
    | inl f ↦ rw (left_out name e f) h
    | inr (into, f) ↦ rw (added name into e f) (add_to-AreLoaded l name into h f)
  ]
]
  where
    left_out :
        (name : List ℕ) → l.section ≡ some name → find name (l.sections) ≡ none → add_record l ≡ l
    left_out name e f = ground arith

    added :
        (name : List ℕ) (into : CSection)
        → l.section ≡ some name
        → find name (l.sections) ≡ some into
        → add_record l ≡ add_to l name into
    added name into e f = ground arith

entry_line-AreLoaded : (l : Loader) (line : List ℕ) → AreLoaded l → AreLoaded (entry_line l line)
unfolding entry_line
entry_line-AreLoaded l line h =
    let read : Loader = read_entry l line in
    let same : AreLoaded read = rw (read_entry-sections l line) h in
    elim (read.comments)
      as (λ t. AreLoaded (elim t [ [] ↦ add_record (need_section read) | c ∷ s ↦ read ])) [
        | [] ↦ add_record-AreLoaded (need_section read) (need_section-AreLoaded read same)
        | c ∷ s ↦ same
      ]

open_trimmed-AreLoaded :
    (l : Loader) (line : List ℕ) → AreLoaded l → AreLoaded (open_trimmed l line)
unfolding open_trimmed
open_trimmed-AreLoaded l [] h = h
open_trimmed-AreLoaded l (c ∷ s) h = ground (
  arith,
  start_section-AreLoaded (uncomment l) ((cut_at b']' s).0) h,
  entry_line-AreLoaded (uncomment l) (c ∷ s) h,
)

open_lines-AreLoaded :
    (l : Loader) (line : List ℕ) (more : List (List ℕ))
    → AreLoaded l
    → AreLoaded (open_lines l line more)
unfolding open_lines
open_lines-AreLoaded l line [] h = open_trimmed-AreLoaded l (trim line) h
open_lines-AreLoaded l line (next ∷ more) h =
    open_lines-AreLoaded (open_line l line) next more (open_trimmed-AreLoaded l (trim line) h)

pub open_ini-IsValid :
    (path : Option (List ℕ)) (disk : Disk) (ini : CIniFileS)
    → IsValid ini
    → IsValid ((open_ini path disk ini).0)
unfolding open_ini clear
open_ini-IsValid none disk ini h = h
open_ini-IsValid (some []) disk ini h = h
open_ini-IsValid (some (c ∷ path)) disk ini h = elim (Option-cases (find (c ∷ path) disk)) [
  | inl e ↦ ground arith
  | inr (text, e) ↦
      ground
        (arith, open_lines-AreLoaded (fresh_loader []) ((lines text).0) ((lines text).1) (tt, tt))
]

abbrev AreLoading : Loading → Type 0
AreLoading (going l) = AreLoaded l
AreLoading (thrown l) = AreLoaded l

load_trimmed-AreLoading :
    (l : Loader) (line : List ℕ) → AreLoaded l → AreLoading (load_trimmed l line)
unfolding load_trimmed
load_trimmed-AreLoading l [] h = h
load_trimmed-AreLoading l (c ∷ s) h = ground (
  arith,
  start_section-AreLoaded (uncomment l) ((cut_at b']' s).0) h,
  entry_line-AreLoaded (uncomment l) (c ∷ s) h,
)

load_line-AreLoading : (l : Loader) (line : List ℕ) → AreLoaded l → AreLoading (load_line l line)
unfolding load_line
load_line-AreLoading l [] h = h
load_line-AreLoading l (c ∷ s) h = load_trimmed-AreLoading l (trim (drop_cr (c ∷ s))) h

load_lines-AreLoading :
    (l : Loader) (ls : List (List ℕ)) → AreLoaded l → AreLoading (load_lines l ls)
unfolding load_lines
load_lines-AreLoading l [] h = h
load_lines-AreLoading l (line ∷ more) h =
    elim (load_line l line)
        as (λ r.
          AreLoading r
          → AreLoading (elim r [ going next ↦ load_lines next more | thrown at ↦ thrown at ])) [
            | going next ↦ λ a. load_lines-AreLoading next more a
            | thrown at ↦ λ a. a
          ]
      (load_line-AreLoading l line h)

loaded-IsValid : (ini : CIniFileS) (r : Loading) → AreLoading r → IsValid ((loaded ini r).0)
loaded-IsValid ini (going l) h = h
loaded-IsValid ini (thrown l) h = h

pub load_from_buffer-IsValid :
    (text : List ℕ) (ini : CIniFileS) → IsValid ini → IsValid ((load_from_buffer text ini).0)
unfolding load_from_buffer clear
load_from_buffer-IsValid [] ini h = h
load_from_buffer-IsValid (c ∷ s) ini h = loaded-IsValid (clear ini) _ (
    load_lines-AreLoading (fresh_loader []) (ended ((lines (c ∷ s)).0) ((lines (c ∷ s)).1))
      (tt, tt))
