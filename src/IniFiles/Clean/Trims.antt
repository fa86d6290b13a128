-- ===== src/IniFiles/Clean/Trims.antt =====
-- _ini_Trim on texts with nothing to trim, and on comment lines put together.
use libnbf.Prelude.{append-ne, ℕ, false, List, [], ◌∷◌, ◌++◌, ◌≡◌, ◌≢◌, refl, ◌∙◌, arith}
use libnbf.Text.Split.{join}
use libnbf.IniFiles.{from_first, to_last, ini_trim, trim, is_trimmed}
use libnbf.IniFiles.Clean.{Starts, Ends, AllCommentLines}

from_first-Starts : (s : List ℕ) → Starts s → from_first s ≡ s
unfolding from_first
from_first-Starts [] h = refl
from_first-Starts (c ∷ s) h = rw h refl

to_last-Ends : (s : List ℕ) → Ends s → to_last s ≡ s
unfolding to_last
to_last-Ends [] h = refl
to_last-Ends (c ∷ []) h = rw h refl
to_last-Ends (c ∷ d ∷ s) h = rw (to_last-Ends (d ∷ s) h) refl

trim-Starts : (s : List ℕ) → Starts s → trim s ≡ to_last s
unfolding ini_trim to_last from_first
trim-Starts [] h = refl
trim-Starts (c ∷ s) h = ground arith

pub trim-Tight : (s : List ℕ) → Starts s → Ends s → trim s ≡ s
trim-Tight s a e = trim-Starts s a ∙ to_last-Ends s e

pub Starts-append :
    (s : List ℕ) (c : ℕ) (t : List ℕ) → Starts s → is_trimmed c ≡ false → Starts (s ++ (c ∷ t))
Starts-append [] c t h k = k
Starts-append (d ∷ s) c t h k = h

Ends-cons : (c : ℕ) (s : List ℕ) → s ≢ [] → Ends s → Ends (c ∷ s)
Ends-cons c [] n h = absurd (n refl)
Ends-cons c (d ∷ s) n h = h

pub Ends-append : (s t : List ℕ) → t ≢ [] → Ends t → Ends (s ++ t)
Ends-append [] t n h = h
Ends-append (c ∷ s) t n h = Ends-cons c (s ++ t) (append-ne s t n) (Ends-append s t n h)

to_last-append_blank : (s t : List ℕ) → to_last t ≡ [] → to_last (s ++ t) ≡ to_last s
unfolding to_last
to_last-append_blank [] t h = h
to_last-append_blank (c ∷ s) t h = rw (to_last-append_blank s t h) refl

to_last-append :
    (s t : List ℕ) (d : ℕ) (u : List ℕ) → to_last t ≡ d ∷ u → to_last (s ++ t) ≡ s ++ (d ∷ u)
unfolding to_last
to_last-append [] t d u h = h
to_last-append (c ∷ []) t d u h = rw h refl
to_last-append (c ∷ e ∷ s) t d u h = rw (to_last-append (e ∷ s) t d u h) refl

-- Lines with a newline behind each.
abbrev pub ended_text : List (List ℕ) → List ℕ
ended_text [] = []
ended_text (s ∷ ss) = s ++ (10 ∷ ended_text ss)

to_last-cons : (c : ℕ) (t w : List ℕ) → w ≢ [] → to_last t ≡ w → to_last (c ∷ t) ≡ c ∷ w
unfolding to_last
to_last-cons c t [] n e = absurd (n refl)
to_last-cons c t (d ∷ w) n e = rw e refl

join-ne : (d : ℕ) (t : List ℕ) (ls : List (List ℕ)) → join 10 ((d ∷ t) ∷ ls) ≢ []
join-ne d t [] = λ e. cc
join-ne d t (s ∷ ls) = λ e. cc

to_last-ended_text :
    (ls : List (List ℕ)) → AllCommentLines ls → to_last (ended_text ls) ≡ join 10 ls
unfolding to_last
to_last-ended_text [] h = refl
to_last-ended_text ([] ∷ ls) h = absurd h.0
to_last-ended_text ((c ∷ s) ∷ []) h =
    to_last-append_blank (c ∷ s) (10 ∷ []) refl ∙ to_last-Ends (c ∷ s) (h.0.1.1)
to_last-ended_text ((c ∷ s) ∷ [] ∷ ls) h = absurd h.1.0
to_last-ended_text ((c ∷ s) ∷ (d ∷ t) ∷ ls) h =
    to_last-append (c ∷ s) (10 ∷ ended_text ((d ∷ t) ∷ ls)) 10 (join 10 ((d ∷ t) ∷ ls)) (
      to_last-cons 10 (ended_text ((d ∷ t) ∷ ls)) _ (join-ne d t ls)
        (to_last-ended_text ((d ∷ t) ∷ ls) h.1))

pub trim-ended_text : (ls : List (List ℕ)) → AllCommentLines ls → trim (ended_text ls) ≡ join 10 ls
trim-ended_text [] h = trim-Tight [] tt tt
trim-ended_text ([] ∷ ls) h = absurd h.0
trim-ended_text ((c ∷ s) ∷ ls) h =
    trim-Starts (ended_text ((c ∷ s) ∷ ls)) (h.0.1.0) ∙ to_last-ended_text ((c ∷ s) ∷ ls) h
