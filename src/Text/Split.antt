-- ===== src/Text/Split.antt =====
-- Split: the segments between the delimiters.
use libnbf.Prelude.{
  ℕ, zero, suc, ◌+◌, ◌≤◌, ◌<◌, ◌≡◌, ◌≢◌, refl, ap, ◌∙◌, Bool, not, ◌&&◌, true, false, List, [], ◌∷◌,
  ◌++◌, Option, none, some, arith, ◌==◌, Bool-cases, inl, inr, length,
}
use libnbf.Text.{cut_at, keep, split_from, split}

-- The segments with the delimiter between two of them.
abbrev pub join : ℕ → List (List ℕ) → List ℕ
join delim [] = []
join delim (s ∷ []) = s
join delim (s ∷ t ∷ ts) = s ++ (delim ∷ join delim (t ∷ ts))

-- No byte is the delimiter.
abbrev pub Lacks : ℕ → List ℕ → Type 0
Lacks delim [] = Unit
Lacks delim (c ∷ s) = (c ≢ delim) × Lacks delim s

abbrev pub AllLack : ℕ → List (List ℕ) → Type 0
AllLack delim [] = Unit
AllLack delim (s ∷ ss) = Lacks delim s × AllLack delim ss

abbrev pub filled : List (List ℕ) → List (List ℕ)
filled [] = []
filled (s ∷ ss) = keep true s (filled ss)

-- What one cut gives: a segment without the delimiter, and the rest behind a delimiter or the end.
abbrev Glued : ℕ → List ℕ → Option (List ℕ) → List ℕ → Type 0
Glued delim seg none s = seg ≡ s
Glued delim seg (some rest) s = (seg ++ (delim ∷ rest) ≡ s) × (length rest + 1 ≤ length s)

glue_on :
    (delim c : ℕ) (seg : List ℕ) (r : Option (List ℕ)) (s : List ℕ)
    → Glued delim seg r s
    → Glued delim (c ∷ seg) r (c ∷ s)
glue_on delim c seg none s g = ap (◌∷◌ c) g
glue_on delim c seg (some rest) s g = (ap (◌∷◌ c) g.0, omega (arith, g.1))

cut_at-Glued :
    (delim : ℕ) (s : List ℕ)
    → Lacks delim (cut_at delim s).0 × Glued delim (cut_at delim s).0 (cut_at delim s).1 s
unfolding cut_at
cut_at-Glued delim [] = (tt, refl)
cut_at-Glued delim (c ∷ s) = elim (Bool-cases (c == delim)) [
  | inl here ↦ rw here (tt, (ap (λ d. d ∷ s) (ground arith), omega arith))
  | inr on ↦
      let ih = cut_at-Glued delim s in rw on ((ground arith, ih.0), glue_on delim c _ _ s ih.1)
]

-- The segments of a text: put together they are the text, and none holds the delimiter.
pub record Splits (delim : ℕ) (s : List ℕ) (ss : List (List ℕ)) : Type 0 where
  pub whole : join delim ss ≡ s
  pub apart : AllLack delim ss
  pub some_segment : ss ≢ []

one_more :
    (delim : ℕ) (seg rest s : List ℕ) (ss : List (List ℕ))
    → Lacks delim seg
    → seg ++ (delim ∷ rest) ≡ s
    → Splits delim rest ss
    → Splits delim s (seg ∷ ss)
one_more delim seg rest s [] l g w = absurd (w.some_segment refl)
one_more delim seg rest s (t ∷ ts) l g w = record {
  whole = ap (λ u. seg ++ (delim ∷ u)) w.whole ∙ g;
  apart = (l, w.apart);
  some_segment = λ e. cc;
}

keep-all : (seg : List ℕ) (ss : List (List ℕ)) → keep false seg ss ≡ seg ∷ ss
keep-all [] ss = refl
keep-all (c ∷ seg) ss = refl

after_cut :
    (fuel delim : ℕ) (seg : List ℕ) (r : Option (List ℕ)) (s : List ℕ)
    → Lacks delim seg
    → Glued delim seg r s
    → length s < suc fuel
    → ((t : List ℕ) → length t < fuel → Splits delim t (split_from fuel delim false t))
    → Splits delim s
        (keep false seg (elim r [ none ↦ [] | some rest ↦ split_from fuel delim false rest ]))
after_cut fuel delim seg none s l g f ih =
    rw keep-all (record { whole = g; apart = (l, tt); some_segment = λ e. cc })
after_cut fuel delim seg (some rest) s l g f ih =
    rw keep-all (one_more delim seg rest s _ l g.0 (ih rest (omega (arith, g.1))))

split_from-Splits :
    (fuel delim : ℕ) (s : List ℕ) → length s < fuel → Splits delim s (split_from fuel delim false s)
unfolding split_from
split_from-Splits zero delim s h = absurd (omega arith)
split_from-Splits (suc fuel) delim s h =
    let cut = cut_at-Glued delim s in
    after_cut fuel delim (cut_at delim s).0 (cut_at delim s).1 s cut.0 cut.1 h
      (λ t k. split_from-Splits fuel delim t k)

keep-filled :
    (seg : List ℕ) (r : Option (List ℕ)) (f g : List ℕ → List (List ℕ))
    → ((t : List ℕ) → f t ≡ filled (g t))
    → keep true seg (elim r [ none ↦ [] | some rest ↦ f rest ])
      ≡ filled (keep false seg (elim r [ none ↦ [] | some rest ↦ g rest ]))
keep-filled [] none f g e = refl
keep-filled (c ∷ seg) none f g e = refl
keep-filled [] (some rest) f g e = e rest
keep-filled (c ∷ seg) (some rest) f g e = ap (◌∷◌ (c ∷ seg)) (e rest)

split_from-filled :
    (fuel delim : ℕ) (s : List ℕ)
    → split_from fuel delim true s ≡ filled (split_from fuel delim false s)
unfolding split_from
split_from-filled zero delim s = refl
split_from-filled (suc fuel) delim s =
    keep-filled (cut_at delim s).0 (cut_at delim s).1 (split_from fuel delim true)
      (split_from fuel delim false) (λ t. split_from-filled fuel delim t)

-- Split of a text that is not empty takes all of it: with ignoreEmpty off, its segments put together
-- with the delimiter are the text and none of them holds the delimiter; with it on, it gives those
-- segments that are not empty, in the same order.
pub split-Splits :
    (ret : List (List ℕ)) (s : List ℕ) (delim : ℕ)
    → s ≢ []
    → Splits delim s (split ret s delim false)
      × (split ret s delim true ≡ filled (split ret s delim false))
unfolding split
split-Splits ret [] delim ne = absurd (ne refl)
split-Splits ret (c ∷ s) delim ne = (
  split_from-Splits (length (c ∷ s) + 1) delim (c ∷ s) (omega arith),
  split_from-filled (length (c ∷ s) + 1) delim (c ∷ s),
)

pub Lacks-append : (delim : ℕ) (s t : List ℕ) → Lacks delim s → Lacks delim t → Lacks delim (s ++ t)
Lacks-append delim [] t h k = k
Lacks-append delim (c ∷ s) t h k = (h.0, Lacks-append delim s t h.1 k)

pub cut_at-append :
    (delim : ℕ) (x rest : List ℕ)
    → Lacks delim x
    → cut_at delim (x ++ (delim ∷ rest)) ≡ (x, some rest)
unfolding cut_at
cut_at-append delim [] rest h = ground arith
cut_at-append delim (c ∷ x) rest h = rw (cut_at-append delim x rest h.1) (ground arith)

-- A test that says that no byte is the delimiter.
abbrev pub lacks : ℕ → List ℕ → Bool
lacks delim [] = true
lacks delim (c ∷ s) = not (c == delim) && lacks delim s

pub lacks-Lacks : (delim : ℕ) (s : List ℕ) → lacks delim s ≡ true → Lacks delim s
lacks-Lacks delim [] h = tt
lacks-Lacks delim (c ∷ s) h = (ground arith, lacks-Lacks delim s (ground arith))
