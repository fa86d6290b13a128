-- ===== src/IniFiles/RoundTrip/Lines.antt =====
-- The lines that SaveToFile writes, as the loop of Open reads them.
use libnbf.Prelude.{ℕ, List, [], ◌∷◌, ◌++◌, ◌≡◌, ◌≢◌, refl, arith, length-append}
use libnbf.Text.Split.{Lacks, cut_at-append}
use libnbf.IniFiles.Load.{
  Loader, lines, add_comment, uncomment, start_section, entry_line, open_trimmed, open_line,
  open_lines,
}
use libnbf.IniFiles.Clean.{Ends, Tight, CommentLine, PlainKey}
use libnbf.IniFiles.Clean.Trims.{trim-Tight, Ends-append}

-- The loop of Open on a text.
abbrev pub read_text : Loader → List ℕ → Loader
read_text l s = open_lines l ((lines s).0) ((lines s).1)

lines-append :
    (x rest : List ℕ) → Lacks 10 x → lines (x ++ (10 ∷ rest)) ≡ (x, (lines rest).0 ∷ (lines rest).1)
unfolding lines
lines-append [] rest h = refl
lines-append (c ∷ x) rest h = rw (lines-append x rest h.1) (ground arith)

pub read_text-append :
    (l : Loader) (x rest : List ℕ)
    → Lacks 10 x
    → read_text l (x ++ (10 ∷ rest)) ≡ read_text (open_line l x) rest
unfolding open_lines
read_text-append l x rest h = rw (lines-append x rest h) refl

pub open_line-comment : (l : Loader) (x : List ℕ) → CommentLine x → open_line l x ≡ add_comment l x
unfolding open_trimmed
open_line-comment l [] h = absurd h
open_line-comment l (c ∷ s) h = rw (trim-Tight (c ∷ s) h.1.0 h.1.1, h.0) refl

pub open_line-section :
    (l : Loader) (name : List ℕ)
    → name ≢ []
    → Lacks b']' name
    → open_line l (b'[' ∷ (name ++ (b']' ∷ []))) ≡ start_section (uncomment l) name
unfolding open_trimmed
open_line-section l [] n h = absurd (n refl)
open_line-section l (c ∷ name) n h =
    rw
      (
        trim-Tight (b'[' ∷ ((c ∷ name) ++ (b']' ∷ []))) refl
            (Ends-append (b'[' ∷ c ∷ name) (b']' ∷ []) (λ e. cc) refl),
        cut_at-append b']' (c ∷ name) [] h,
      )
      (ground (arith, length-append name (b']' ∷ [])))

Ends-entry : (value : List ℕ) → Ends value → Ends (b'=' ∷ value)
Ends-entry [] h = refl
Ends-entry (c ∷ s) h = h

pub open_line-record :
    (l : Loader) (key value : List ℕ)
    → Tight key
    → PlainKey key
    → Ends value
    → open_line l (key ++ (b'=' ∷ value)) ≡ entry_line (uncomment l) (key ++ (b'=' ∷ value))
unfolding open_trimmed
open_line-record l [] value k p v =
    rw (trim-Tight (b'=' ∷ value) refl (Ends-entry value v)) (ground arith)
open_line-record l (c ∷ key) value k p v =
    rw
      (trim-Tight ((c ∷ key) ++ (b'=' ∷ value)) (k.0)
        (Ends-append (c ∷ key) (b'=' ∷ value) (λ e. cc) (Ends-entry value v)))
      (ground arith)
