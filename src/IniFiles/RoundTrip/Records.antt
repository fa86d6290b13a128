-- ===== src/IniFiles/RoundTrip/Records.antt =====
-- The records of a section that SaveToFile writes, as the loop of Open reads them.
use libnbf.Prelude.{
  ℕ, true, List, [], ◌∷◌, ◌++◌, some, ◌≡◌, refl, ap, ◌∙◌, sym, arith, append_assoc, append-nil,
}
use libnbf.Prelude.TextMap.{TextMap, find, insert, insert-new, replace, IsSorted}
use libnbf.Prelude.TextMap.Last.{
  AllBefore, find-AllBefore, place-AllBefore, find-last, replace-last, IsSorted-AllBefore,
}
use libnbf.Text.{cut_at}
use libnbf.IniFiles.{CRecord, CSection, new_record, cc_record, trim}
use libnbf.IniFiles.Save.{comment_line, save_records}
use libnbf.IniFiles.Load.{Loader, read_entry, need_section, add_to, add_record, entry_line}
use libnbf.IniFiles.Clean.{CleanRecord, AllCleanRecords}
use libnbf.IniFiles.Clean.Trims.{trim-Tight, ended_text}
use libnbf.Text.Split.{Lacks-append}
use libnbf.Text.Split.{cut_at-append}
use libnbf.IniFiles.RoundTrip.Lines.{read_text, read_text-append, open_line-record}
use libnbf.IniFiles.RoundTrip.Comments.{read_text-comment_line, trim_remarks}

-- The loop in the last section of the map.
abbrev pub inside : TextMap CSection → List ℕ → CSection → List ℕ → CRecord → Loader
inside prev name sec text rec = record {
  sections = prev ++ ((name, sec) ∷ []);
  cur_sec = name;
  comments = text;
  rec = rec;
  section = some name;
}

abbrev pub with_records : CSection → TextMap CRecord → CSection
with_records sec m = record sec { map_kv = m }

read_entry-cut :
    (l : Loader) (line key value : List ℕ)
    → cut_at b'=' line ≡ (key, some value)
    → read_entry l line ≡ record l {
      comments = [];
      rec = record l.rec {
        str_sec_name = l.cur_sec;
        str_key = trim key;
        str_value = trim value;
        str_comments = trim (l.comments);
      };
    }
unfolding read_entry
read_entry-cut l line key value e = ground arith

pub add_record-found :
    (l : Loader) (name : List ℕ) (into : CSection)
    → l.section ≡ some name
    → find name (l.sections) ≡ some into
    → add_record l ≡ add_to l name into
unfolding add_record
add_record-found l name into e f = ground arith

add_to-new :
    (l : Loader) (name : List ℕ) (into : CSection) (m : TextMap CRecord)
    → insert (l.rec.str_key) (l.rec) (into.map_kv) ≡ (m, true)
    → add_to l name into
      ≡ record l { sections = replace name (with_records into m) (l.sections); rec = new_record }
unfolding add_to
add_to-new l name into m e = ground arith

entry_line-read :
    (l r : Loader) (line : List ℕ)
    → read_entry l line ≡ r
    → r.comments ≡ []
    → entry_line l line ≡ add_record (need_section r)
unfolding entry_line
entry_line-read l r line e c = ground arith

module _ (prev : TextMap CSection) (name : List ℕ) (before_name : AllBefore name prev) where
  read_entry_lem :
      (sec : CSection) (key text : List ℕ) (rec : CRecord)
      → CleanRecord name key rec
      → trim text ≡ rec.str_comments
      → read_entry (inside prev name sec text new_record) (key ++ (b'=' ∷ rec.str_value))
        ≡ inside prev name sec [] rec
  read_entry_lem sec key text rec clean t =
      read_entry-cut (inside prev name sec text new_record) (key ++ (b'=' ∷ rec.str_value)) key
        (rec.str_value) (cut_at-append b'=' key (rec.str_value) (clean.key_whole))
      ∙ ap (inside prev name sec []) (
          whole (trim-Tight key (clean.key_tight.0) (clean.key_tight.1))
            (trim-Tight (rec.str_value) (clean.value_tight.0) (clean.value_tight.1)))
    where
      whole :
          trim key ≡ key
          → trim (rec.str_value) ≡ rec.str_value
          → record {
            str_sec_name = name;
            str_key = trim key;
            str_value = trim (rec.str_value);
            str_comments = trim text;
            c_commented = cc_record;
          }
            ≡ rec
      whole k v =
          rw (k, v, t, sym (clean.its_section), sym (clean.its_key), sym (clean.unmarked)) refl

  add_record_lem :
      (sec : CSection) (key : List ℕ) (rec : CRecord)
      → rec.str_key ≡ key
      → AllBefore key (sec.map_kv)
      → add_record (inside prev name sec [] rec)
        ≡ inside prev name (with_records sec (sec.map_kv ++ ((key, rec) ∷ []))) [] new_record
  add_record_lem sec key rec e b =
      add_record-found (inside prev name sec [] rec) name sec refl
        (find-last name sec prev before_name)
      ∙ add_to-new (inside prev name sec [] rec) name sec (sec.map_kv ++ ((key, rec) ∷ [])) (
          ap (λ k. insert k rec (sec.map_kv)) e
          ∙ insert-new key rec (sec.map_kv) (find-AllBefore key (sec.map_kv) b)
          ∙ ap (λ m. (m, true)) (place-AllBefore key rec (sec.map_kv) b))
      ∙ ap (λ m. record (inside prev name sec [] new_record) { sections = m })
          (replace-last name (with_records sec (sec.map_kv ++ ((key, rec) ∷ []))) sec prev
            before_name)

  entry_line_lem :
      (sec : CSection) (key text : List ℕ) (rec : CRecord)
      → CleanRecord name key rec
      → trim text ≡ rec.str_comments
      → AllBefore key (sec.map_kv)
      → entry_line (inside prev name sec text new_record) (key ++ (b'=' ∷ rec.str_value))
        ≡ inside prev name (with_records sec (sec.map_kv ++ ((key, rec) ∷ []))) [] new_record
  unfolding need_section
  entry_line_lem sec key text rec clean t b =
      entry_line-read (inside prev name sec text new_record) (inside prev name sec [] rec)
        (key ++ (b'=' ∷ rec.str_value)) (read_entry_lem sec key text rec clean t) refl
      ∙ add_record_lem sec key rec (clean.its_key) b

  pub read_text-save_records :
      (sec : CSection) (m : TextMap CRecord) (rest : List ℕ)
      → AllCleanRecords name m
      → IsSorted (sec.map_kv ++ m)
      → read_text (inside prev name sec [] new_record) (save_records m ++ rest)
        ≡ read_text (inside prev name (with_records sec (sec.map_kv ++ m)) [] new_record) rest
  unfolding save_records
  read_text-save_records sec [] rest clean sorted =
      ap (λ m. read_text (inside prev name (with_records sec m) [] new_record) rest)
        (sym (append-nil (sec.map_kv)))
  read_text-save_records sec (e ∷ m) rest clean sorted =
      let c = clean.0 in
      let text : List ℕ = ended_text (c.remarks.0) in
      let line : List ℕ = e.0 ++ (b'=' ∷ e.1.str_value) in
      let more : CSection = with_records sec (sec.map_kv ++ (e ∷ [])) in
      ap (read_text (inside prev name sec [] new_record)) (spread e m rest (c.its_key))
      ∙ read_text-comment_line (inside prev name sec [] new_record) (e.1.str_comments)
          (line ++ (10 ∷ (save_records m ++ rest))) (c.remarks) refl
      ∙ read_text-append (inside prev name sec text new_record) line (save_records m ++ rest) (
          Lacks-append 10 e.0 (b'=' ∷ e.1.str_value) (c.key_tight.2) (omega arith, c.value_tight.2))
      ∙ ap (λ l. read_text l (save_records m ++ rest))
          (open_line-record (inside prev name sec text new_record) e.0 (e.1.str_value) (c.key_tight)
              (c.key_plain) (c.value_tight.1)
            ∙ entry_line_lem sec e.0 text e.1 c (trim_remarks (e.1.str_comments) (c.remarks))
                (IsSorted-AllBefore (sec.map_kv) e m sorted))
      ∙ read_text-save_records more m rest clean.1
          (rw (append_assoc (sec.map_kv) (e ∷ []) m) sorted)
      ∙ ap (λ n. read_text (inside prev name (with_records sec n) [] new_record) rest)
          (append_assoc (sec.map_kv) (e ∷ []) m)
    where
      spread :
          (e : List ℕ × CRecord) (m : TextMap CRecord) (rest : List ℕ)
          → e.1.str_key ≡ e.0
          → save_records (e ∷ m) ++ rest
            ≡ comment_line (e.1.str_comments)
              ++ ((e.0 ++ (b'=' ∷ e.1.str_value)) ++ (10 ∷ (save_records m ++ rest)))
      spread e m rest k = rw k (simp (append_assoc))
