-- ===== src/Http/Domains.antt =====
-- CheckRootDomainMatch, GetDomain and GetDomainPort.
use libnbf.Prelude.{
  ℕ, zero, suc, ◌+◌, ◌-◌, ◌<◌, ◌≤◌, ◌≡◌, ◌↔◌, refl, sym, ◌∙◌, ap, ap₂, List, [], ◌∷◌, ◌++◌, true,
  arith, length, take, drop, Bool-cases, inl, inr, length-append, length-drop, length-take,
  take-append-drop, ==_iff, ◌==◌,
}
use libnbf.Prelude.TextMap.{same_text, same_text-eq, same_text_refl}
use libnbf.Text.{split}
use libnbf.Http.Util.{field_at, match_from, check_root_domain_match}

at-eq : (xs : List (List ℕ)) (i j : ℕ) → i ≡ j → field_at xs i ≡ field_at xs j
at-eq xs i j e = ap (field_at xs) e

match_from-same :
    (base check : List (List ℕ)) (k i e : ℕ)
    → match_from base check k e ≡ true
    → k ≤ e
    → i < k
    → field_at base i ≡ field_at check (e - k + i)
unfolding match_from
match_from-same base check zero i e h le lt = absurd (omega arith)
match_from-same base check (suc k) i e h le lt =
    elim (Bool-cases (same_text (field_at base k) (field_at check (e - 1)))) [
      | inr other ↦ absurd (ground arith)
      | inl same ↦ elim (Bool-cases (i == k)) [
        | inl last ↦
            let j : i ≡ k = (==_iff i k).0 last in
            ap (field_at base) j
            ∙ same_text-eq _ _ same
            ∙ at-eq check (e - 1) (e - suc k + i) (omega (arith, j))
        | inr before ↦
            match_from-same base check k i (e - 1) (ground arith) (omega arith) (ground arith)
            ∙ at-eq check (e - 1 - k + i) (e - suc k + i) (omega arith)
      ]
    ]

match_from-all :
    (base check : List (List ℕ)) (k e : ℕ)
    → k ≤ e
    → ((i : ℕ) → i < k → field_at base i ≡ field_at check (e - k + i))
    → match_from base check k e ≡ true
unfolding match_from
match_from-all base check zero e le h = refl
match_from-all base check (suc k) e le h =
    rw
      (
        sym (h k (omega arith) ∙ at-eq check (e - suc k + k) (e - 1) (omega arith)),
        same_text_refl (field_at base k),
      )
      (match_from-all base check k (e - 1) (omega arith)
        (λ i lt. h i (omega arith) ∙ at-eq check (e - suc k + i) (e - 1 - k + i) (omega arith)))

-- Lists of one length with the same fields are the same.
fields-eq :
    (xs ys : List (List ℕ))
    → length xs ≡ length ys
    → ((i : ℕ) → i < length xs → field_at xs i ≡ field_at ys i)
    → xs ≡ ys
fields-eq [] [] e h = refl
fields-eq [] (y ∷ ys) e h = absurd (omega arith)
fields-eq (x ∷ xs) [] e h = absurd (omega arith)
fields-eq (x ∷ xs) (y ∷ ys) e h =
    ap₂ ◌∷◌ (h 0 (omega arith)) (fields-eq xs ys (omega arith) (λ i lt. h (suc i) (omega arith)))

field_at-append :
    (xs ys : List (List ℕ)) (i : ℕ) → field_at (xs ++ ys) (length xs + i) ≡ field_at ys i
field_at-append [] ys i = at-eq ys (0 + i) i (omega arith)
field_at-append (x ∷ xs) ys i =
    at-eq (x ∷ (xs ++ ys)) (suc (length xs) + i) (suc (length xs + i)) (omega arith)
    ∙ field_at-append xs ys i

match_suffix :
    (base check : List (List ℕ))
    → match_from base check (length base) (length check) ≡ true
    → length base ≤ length check
    → check ≡ take (length check - length base) check ++ base
match_suffix base check h le =
    let m : ℕ = length check - length base in
    let back : List (List ℕ) = drop m check in
    sym (take-append-drop m check)
    ∙ ap (◌++◌ (take m check)) (
        sym (
          fields-eq base back (omega (arith, length-drop m check)) (λ i lt.
            match_from-same base check (length base) i (length check) h le lt
            ∙ sym (ap (λ xs. field_at xs (m + i)) (take-append-drop m check))
            ∙ at-eq (take m check ++ back) (m + i) (length (take m check) + i)
                (omega (arith, length-take m check))
            ∙ field_at-append (take m check) back i)))

suffix_match :
    (base check front : List (List ℕ))
    → check ≡ front ++ base
    → (length base ≤ length check) × (match_from base check (length base) (length check) ≡ true)
suffix_match base check front e =
    let n : length check ≡ length front + length base = ap length e ∙ length-append front base in
    (
      omega (arith, n),
      match_from-all base check (length base) (length check) (omega (arith, n)) (λ i lt.
          sym (field_at-append front base i)
          ∙ ap (λ xs. field_at xs (length front + i)) (sym e)
          ∙ at-eq check (length front + i) (length check - length base + i) (omega (arith, n))),
    )

-- CheckRootDomainMatch says whether the fields of the base, between the dots, are the last fields of
-- the other text.
pub check_root_domain_match-suffix :
    (base_str check_str : List ℕ)
    → (check_root_domain_match base_str check_str ≡ true) ↔ (
        (front : List (List ℕ)) × (split [] check_str b'.' true
          ≡ front ++ split [] base_str b'.' true))
unfolding check_root_domain_match
check_root_domain_match-suffix base_str check_str =
    let base : List (List ℕ) = split [] base_str b'.' true in
    let check : List (List ℕ) = split [] check_str b'.' true in
    (
      λ h. (
        take (length check - length base) check,
        match_suffix base check (ground arith) (ground arith),
      ),
      λ w. ground (arith, suffix_match base check w.0 w.1),
    )
