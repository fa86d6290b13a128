-- ===== src/IniFiles/RoundTrip/Sections.antt =====
-- The sections that SaveToFile writes, as Open reads them.
use libnbf.Prelude.{ℕ, List, Option, some, ◌≡◌, refl, ◌∙◌, Option-by}
use libnbf.Prelude.TextMap.{TextMap, find, find-place, find-replace, same_text_refl}
use libnbf.IniFiles.{CSection, Disk, new_record, write_file}
use libnbf.IniFiles.Load.{Loader}

-- The loop between two sections.
abbrev between : TextMap CSection → List ℕ → Option (List ℕ) → List ℕ → Loader
between prev cur at text = record {
  sections = prev;
  cur_sec = cur;
  comments = text;
  rec = new_record;
  section = at;
}

pub find-write_file :
    (path text : List ℕ) (disk : Disk) → find path (write_file path text disk) ≡ some text
unfolding write_file
find-write_file path text disk =
    Option-by (λ d. find path d ≡ some text) (find path disk) _ _
      (λ e. find-place path path text disk e ∙ rw (same_text_refl path) refl)
      (λ old e. find-replace path path text old disk e ∙ rw (same_text_refl path) refl)
