-- ===== src/IniFiles/RoundTrip/Comments.antt =====
-- The comments that SaveToFile writes, as the loop of Open reads them.
use libnbf.Prelude.{List, [], ◌∷◌, ◌++◌, ℕ, ◌≡◌, refl, ap, ◌∙◌, sym, append-nil, append_assoc}
use libnbf.Text.Split.{join}
use libnbf.IniFiles.Save.{comment_line}
use libnbf.IniFiles.{trim}
use libnbf.IniFiles.Load.{Loader, add_comment}
use libnbf.IniFiles.Clean.{AllCommentLines, Comments}
use libnbf.IniFiles.Clean.Trims.{ended_text, trim-ended_text}
use libnbf.IniFiles.RoundTrip.Lines.{read_text, read_text-append, open_line-comment}

abbrev pub with_comments : Loader → List ℕ → Loader
with_comments l text = record l { comments = text }

read_text-ended_text :
    (l : Loader) (ls : List (List ℕ)) (rest : List ℕ)
    → AllCommentLines ls
    → read_text l (ended_text ls ++ rest)
      ≡ read_text (with_comments l (l.comments ++ ended_text ls)) rest
read_text-ended_text l [] rest h =
    ap (λ c. read_text (with_comments l c) rest) (sym (append-nil (l.comments)))
read_text-ended_text l ([] ∷ ls) rest h = absurd h.0
read_text-ended_text l ((c ∷ s) ∷ ls) rest h =
    ap (read_text l) (append_assoc (c ∷ s) (10 ∷ ended_text ls) rest)
    ∙ read_text-append l (c ∷ s) (ended_text ls ++ rest) (h.0.1.2)
    ∙ ap (λ x. read_text x (ended_text ls ++ rest)) (open_line-comment l (c ∷ s) h.0)
    ∙ read_text-ended_text (add_comment l (c ∷ s)) ls rest h.1
    ∙ ap (λ c'. read_text (with_comments l c') rest) (regroup (l.comments) (c ∷ s) (ended_text ls))
  where
    regroup : (xs ys zs : List ℕ) → (xs ++ (ys ++ (10 ∷ []))) ++ zs ≡ xs ++ (ys ++ (10 ∷ zs))
    regroup xs ys zs = simp (append_assoc)

join-newline :
    (c : ℕ) (s : List ℕ) (ls : List (List ℕ))
    → AllCommentLines ls
    → join 10 ((c ∷ s) ∷ ls) ++ (10 ∷ []) ≡ ended_text ((c ∷ s) ∷ ls)
join-newline c s [] h = refl
join-newline c s ([] ∷ ls) h = absurd h.0
join-newline c s ((d ∷ t) ∷ ls) h =
    append_assoc (c ∷ s) (10 ∷ join 10 ((d ∷ t) ∷ ls)) (10 ∷ [])
    ∙ ap (λ u. (c ∷ s) ++ (10 ∷ u)) (join-newline d t ls h.1)

comment_line-join :
    (ls : List (List ℕ)) → AllCommentLines ls → comment_line (join 10 ls) ≡ ended_text ls
comment_line-join [] h = refl
comment_line-join ([] ∷ ls) h = absurd h.0
comment_line-join ((c ∷ s) ∷ []) h = refl
comment_line-join ((c ∷ s) ∷ t ∷ ls) h = join-newline c s (t ∷ ls) h.1

pub read_text-comment_line :
    (l : Loader) (text rest : List ℕ) (h : Comments text)
    → l.comments ≡ []
    → read_text l (comment_line text ++ rest) ≡ read_text (with_comments l (ended_text (h.0))) rest
read_text-comment_line l text rest h e =
    ap (λ t. read_text l (t ++ rest)) (ap comment_line (h.1) ∙ comment_line-join (h.0) (h.2))
    ∙ read_text-ended_text l (h.0) rest (h.2)
    ∙ ap (λ t. read_text (with_comments l (t ++ ended_text (h.0))) rest) e

pub trim_remarks : (text : List ℕ) (h : Comments text) → trim (ended_text (h.0)) ≡ text
trim_remarks text h = trim-ended_text (h.0) (h.2) ∙ sym (h.1)
