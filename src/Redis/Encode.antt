-- ===== src/Redis/Encode.antt =====
-- RedisParser::ParseCmd against a list of segments.
use libnbf.Prelude.{
  ℕ, zero, suc, ◌+◌, ◌≤◌, ◌≡◌, refl, ap, sym, ◌∙◌, true, false, List, [], ◌∷◌, ◌++◌, Option, none,
  some, arith, ◌==◌, length, drop, length-append, Bool-cases, inl, inr,
}
use libnbf.Prelude.Slices.{take-append_self}
use libnbf.Prelude.Clib.{print_unsigned}
use libnbf.Redis.{sep, cr, lf}
use libnbf.Redis.Commands.{find_sep, segment, with_segment, split_cmd, parse_cmd}

-- The segments with a separator between two of them.
abbrev pub join : List ℕ → List (List ℕ) → List ℕ
join s [] = s
join s (t ∷ ts) = s ++ (sep ∷ join t ts)

-- Not empty, and without the separator.
abbrev pub IsSegment : List ℕ → Type 0
IsSegment s = (1 ≤ length s) × (find_sep s ≡ none)

abbrev pub AllSegments : List (List ℕ) → Type 0
AllSegments [] = Unit
AllSegments (s ∷ ss) = IsSegment s × AllSegments ss

-- The bulk strings of the redis protocol, one for each segment.
abbrev pub bulks : List (List ℕ) → List ℕ
bulks [] = []
bulks (s ∷ ss) = segment s ++ bulks ss

abbrev up : Option ℕ → Option ℕ
up none = none
up (some i) = some (i + 1)

find_sep-here : (x : ℕ) (xs : List ℕ) → (x == 1) ≡ true → find_sep (x ∷ xs) ≡ some 0
unfolding find_sep
find_sep-here x xs e = rw e

find_sep-on : (x : ℕ) (xs : List ℕ) → (x == 1) ≡ false → find_sep (x ∷ xs) ≡ up (find_sep xs)
unfolding find_sep
find_sep-on x xs e = rw e (up_lem (find_sep xs))
  where
    up_lem : (r : Option ℕ) → elim r [ none ↦ none | some i ↦ some (i + 1) ] ≡ up r
    up_lem none = refl
    up_lem (some i) = refl

up-none : (r : Option ℕ) → up r ≡ none → r ≡ none
up-none none e = refl
up-none (some i) e = cc

find_sep-append : (s r : List ℕ) → find_sep s ≡ none → find_sep (s ++ (1 ∷ r)) ≡ some (length s)
find_sep-append [] r e = find_sep-here 1 r refl
find_sep-append (x ∷ s) r e = elim (Bool-cases (x == 1)) [
  | inl found ↦ absurd (cc (find_sep-here x s found))
  | inr on ↦
      let tail = up-none (find_sep s) (sym (find_sep-on x s on) ∙ e) in
      rw (find_sep-on x (s ++ (1 ∷ r)) on, find_sep-append s r tail) (ap some (omega arith))
]

drop_past : (s r : List ℕ) → drop (length s + 1) (s ++ (1 ∷ r)) ≡ r
drop_past [] r = refl
drop_past (x ∷ s) r = ap (λ n. drop n (x ∷ (s ++ (1 ∷ r)))) more ∙ drop_past s r
  where
    more : length (x ∷ s) + 1 ≡ suc (length s + 1)
    more = omega arith

-- One round of the loop at the two things that find can return.
last_round :
    (fuel : ℕ) (s : List ℕ) → IsSegment s → split_cmd (suc fuel) s ≡ some (1, segment s ++ [])
unfolding split_cmd
last_round fuel s w =
    let some_left : (length s == 0) ≡ false = ground (arith, w.0) in
    rw (w.1, split_cmd) (rw some_left)

inner_round :
    (fuel : ℕ) (s r : List ℕ)
    → IsSegment s
    → split_cmd (suc fuel) (s ++ (1 ∷ r)) ≡ with_segment s (split_cmd fuel r)
unfolding split_cmd
inner_round fuel [] r w = absurd (omega (arith, w.0))
inner_round fuel (x ∷ s) r w =
    rw (find_sep-append (x ∷ s) r w.1, split_cmd)
      (rw (take-append_self (length s) s (1 ∷ r) refl, drop_past (x ∷ s) r))

join-length : (s : List ℕ) (ss : List (List ℕ)) → IsSegment s → 1 ≤ length (join s ss)
join-length s [] w = w.0
join-length s (t ∷ ts) w = omega (arith, w.0, length-append s (sep ∷ join t ts))

split_cmd-join :
    (fuel : ℕ) (s : List ℕ) (ss : List (List ℕ))
    → length (join s ss) ≤ fuel
    → IsSegment s
    → AllSegments ss
    → split_cmd fuel (join s ss) ≡ some (length (s ∷ ss), bulks (s ∷ ss))
split_cmd-join zero s [] f w ws = absurd (omega (arith, w.0))
split_cmd-join zero s (t ∷ ts) f w ws =
    absurd (omega (arith, w.0, length-append s (sep ∷ join t ts)))
split_cmd-join (suc fuel) s [] f w ws = last_round fuel s w
split_cmd-join (suc fuel) s (t ∷ ts) f w ws =
    let rest =
      split_cmd-join fuel t ts (omega (arith, w.0, length-append s (sep ∷ join t ts))) ws.0 ws.1 in
    rw (inner_round fuel s (join t ts) w, rest)
      (ap (λ n. some (n, bulks (s ∷ t ∷ ts))) (omega arith))

-- ParseCmd on segments that are not empty and hold no separator, joined by separators, gives "*", the
-- number of the segments and a line end, and then for each segment in order "$", its length, a line
-- end, the segment and a line end.
pub parse_cmd-join :
    (s : List ℕ) (ss : List (List ℕ))
    → IsSegment s
    → AllSegments ss
    → parse_cmd (join s ss)
      ≡ some (42 ∷ (print_unsigned (length (s ∷ ss)) ++ (cr ∷ lf ∷ bulks (s ∷ ss))))
unfolding parse_cmd
parse_cmd-join s ss w ws =
    let some_left : (length (join s ss) == 0) ≡ false = ground (arith, join-length s ss w) in
    rw (some_left, split_cmd-join (length (join s ss)) s ss (omega arith) w ws)
