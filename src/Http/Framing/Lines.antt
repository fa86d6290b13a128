-- ===== src/Http/Framing/Lines.antt =====
-- Lines with their ends are read back one by one.
use libnbf.Prelude.{
  ℕ, zero, suc, ◌<◌, ◌≡◌, ◌≢◌, refl, sym, ◌∙◌, ap, List, [], ◌∷◌, ◌++◌, some, arith, append_assoc,
  length,
}
use libnbf.Text.{to_low}
use libnbf.Text.Split.{Lacks}
use libnbf.Http.Encode.{crlf}
use libnbf.Http.Framing.{read_line, read_lines}

abbrev pub concat : List (List ℕ) → List ℕ
concat [] = []
concat (s ∷ ss) = s ++ concat ss

pub concat-append : (ss ts : List (List ℕ)) → concat (ss ++ ts) ≡ concat ss ++ concat ts
concat-append [] ts = refl
concat-append (s ∷ ss) ts =
    ap (◌++◌ s) (concat-append ss ts) ∙ sym (append_assoc s (concat ss) (concat ts))

-- Lines with an end of line behind each.
abbrev pub line_text : List (List ℕ) → List ℕ
line_text [] = []
line_text (s ∷ ss) = s ++ (crlf ++ line_text ss)

pub line_text-append : (ss ts : List (List ℕ)) → line_text (ss ++ ts) ≡ line_text ss ++ line_text ts
line_text-append [] ts = refl
line_text-append (s ∷ ss) ts = rw (line_text-append ss ts) (simp append_assoc)

-- Every line is filled and has no carriage return.
abbrev pub AreLines : List (List ℕ) → Type 0
AreLines [] = Unit
AreLines (s ∷ ss) = ((s ≢ []) × Lacks 13 s) × AreLines ss

pub AreLines-append : (ss ts : List (List ℕ)) → AreLines ss → AreLines ts → AreLines (ss ++ ts)
AreLines-append [] ts h k = k
AreLines-append (s ∷ ss) ts h k = (h.0, AreLines-append ss ts h.1 k)

read_line-append :
    (s rest : List ℕ) → Lacks 13 s → read_line (s ++ (13 ∷ 10 ∷ rest)) ≡ (s, some rest)
unfolding read_line
read_line-append [] rest h = refl
read_line-append (c ∷ []) rest h = ground (arith, h.0)
read_line-append (c ∷ d ∷ s) rest h = ground (arith, read_line-append (d ∷ s) rest h.1)

read_lines-next :
    (fuel c : ℕ) (s rest text more : List ℕ) (ss : List (List ℕ))
    → read_line text ≡ (c ∷ s, some rest)
    → read_lines fuel rest ≡ some (ss, more)
    → read_lines (suc fuel) text ≡ some ((c ∷ s) ∷ ss, more)
unfolding read_lines
read_lines-next fuel c s rest text more ss e f = ground arith

read_lines-end :
    (fuel : ℕ) (rest text : List ℕ)
    → read_line text ≡ ([], some rest)
    → read_lines (suc fuel) text ≡ some ([], rest)
unfolding read_lines
read_lines-end fuel rest text e = ground arith

pub read_lines-line_text :
    (fuel : ℕ) (ss : List (List ℕ)) (rest : List ℕ)
    → length ss < fuel
    → AreLines ss
    → read_lines fuel (line_text ss ++ (13 ∷ 10 ∷ rest)) ≡ some (ss, rest)
read_lines-line_text zero ss rest f h = absurd (omega arith)
read_lines-line_text (suc fuel) [] rest f h =
    read_lines-end fuel rest (13 ∷ 10 ∷ rest) (read_line-append [] rest tt)
read_lines-line_text (suc fuel) ([] ∷ ss) rest f h = absurd (h.0.0 refl)
read_lines-line_text (suc fuel) ((c ∷ s) ∷ ss) rest f h =
    ap (read_lines (suc fuel)) (append_assoc (c ∷ s) (crlf ++ line_text ss) (13 ∷ 10 ∷ rest))
    ∙ read_lines-next fuel c s (line_text ss ++ (13 ∷ 10 ∷ rest)) _ rest ss
        (read_line-append (c ∷ s) (line_text ss ++ (13 ∷ 10 ∷ rest)) h.0.1)
        (read_lines-line_text fuel ss rest (omega arith) h.1)

pub Lacks-low : (d : ℕ) (s : List ℕ) → d < 97 → Lacks d s → Lacks d (to_low s)
unfolding to_low
Lacks-low d [] k h = tt
Lacks-low d (c ∷ s) k h = (ground arith, Lacks-low d s k h.1)
