-- ===== src/Buffer/Find.antt =====
-- Buffer::FindBytes finds the first occurrence of the pattern.
use libnbf.Prelude.{
  Option, ℕ, zero, suc, ◌+◌, ◌-◌, ◌^◌, ◌≤◌, ◌<◌, ◌≡◌, ◌≢◌, refl, sym, ap, ◌∙◌, true, false, List,
  [], ◌∷◌, none, some, arith, inl, inr, ◌==◌, Bool-cases, length, take, drop, ◌&&◌, ltb,
  if◌then◌else◌,
}
use libnbf.Prelude.{length-take, length-drop}
use libnbf.Buffer.{
  Buffer, IsValid, contents, starts_with, find_from, find_limit, find_bytes, get_reading_size,
}
use libnbf.Buffer.Ops.{length-contents}

-- The test at one offset.
pub starts_with_sound : (ps xs : List ℕ) → starts_with ps xs ≡ true → take (length ps) xs ≡ ps
unfolding starts_with
starts_with_sound [] xs h = refl
starts_with_sound (p ∷ ps) [] h = cc
starts_with_sound (p ∷ ps) (x ∷ xs) h = ground (arith, starts_with_sound ps xs)

pub starts_with_complete : (ps xs : List ℕ) → take (length ps) xs ≡ ps → starts_with ps xs ≡ true
unfolding starts_with
starts_with_complete [] xs h = refl
starts_with_complete (p ∷ ps) [] h = cc
starts_with_complete (p ∷ ps) (x ∷ xs) h = ground (arith, starts_with_complete ps xs)

first_test :
    (p : ℕ) (ps xs : List ℕ)
    → (starts_with (p ∷ []) xs && starts_with (p ∷ ps) xs) ≡ starts_with (p ∷ ps) xs
unfolding starts_with
first_test p ps [] = refl
first_test p ps (x ∷ xs) = ground arith

module _ (p : ℕ) (ps bytes : List ℕ) where
  abbrev pub Occurs : ℕ → Type 0
  Occurs j = take (length (p ∷ ps)) (drop j bytes) ≡ p ∷ ps

  find-none : (i k : ℕ) → find_from zero i p (p ∷ ps) bytes ≢ some k
  unfolding find_from
  find-none i k h = cc

  find-hit :
      (n i : ℕ)
      → starts_with (p ∷ ps) (drop i bytes) ≡ true
      → find_from (suc n) i p (p ∷ ps) bytes ≡ some i
  unfolding find_from
  find-hit n i h = rw (first_test p ps (drop i bytes), h)

  find-miss :
      (n i : ℕ)
      → starts_with (p ∷ ps) (drop i bytes) ≡ false
      → find_from (suc n) i p (p ∷ ps) bytes ≡ find_from n (i + 1) p (p ∷ ps) bytes
  unfolding find_from
  find-miss n i h = rw (first_test p ps (drop i bytes), h)

  not-Occurs : (i : ℕ) → starts_with (p ∷ ps) (drop i bytes) ≡ false → ¬ (Occurs i)
  not-Occurs i h o = cc (starts_with_complete (p ∷ ps) (drop i bytes) o)

  not-Occurs-at : (i j : ℕ) → i ≡ j → ¬ (Occurs i) → ¬ (Occurs j)
  not-Occurs-at i j e h = rw e at h

  -- Past a miss at `i`, the next candidate is `i + 1`.
  not-Occurs-from :
      (i j : ℕ)
      → starts_with (p ∷ ps) (drop i bytes) ≡ false
      → i ≤ j
      → (i + 1 ≤ j → ¬ (Occurs j))
      → ¬ (Occurs j)
  not-Occurs-from i j miss lo later = elim (Bool-cases (i == j)) [
    | inl same ↦ not-Occurs-at i j (ground arith) (not-Occurs i miss)
    | inr other ↦ later (ground arith)
  ]

  pub find_from_sound :
      (n i k : ℕ)
      → find_from n i p (p ∷ ps) bytes ≡ some k
      → (i ≤ k) × (k < i + n) × Occurs k × ((j : ℕ) → i ≤ j → j < k → ¬ (Occurs j))
  find_from_sound zero i k h = absurd (find-none i k h)
  find_from_sound (suc n) i k h = elim (Bool-cases (starts_with (p ∷ ps) (drop i bytes))) [
    | inl hit ↦
        let e : i ≡ k = cc (find-hit n i hit) in
        let o : Occurs i = starts_with_sound (p ∷ ps) (drop i bytes) hit in
        (omega arith, omega arith, rw e at o, λ j lo hi. absurd (omega arith))
    | inr miss ↦
        let r = find_from_sound n (i + 1) k (sym (find-miss n i miss) ∙ h) in
        (
          omega arith,
          omega arith,
          r.2,
          λ j lo hi. not-Occurs-from i j miss lo (λ lo'. r.3 j lo' hi),
        )
  ]

  pub find_from_complete :
      (n i : ℕ) → find_from n i p (p ∷ ps) bytes ≡ none → (j : ℕ) → i ≤ j → j < i + n → ¬ (Occurs j)
  find_from_complete zero i h j lo hi = absurd (omega arith)
  find_from_complete (suc n) i h j lo hi = elim (Bool-cases (starts_with (p ∷ ps) (drop i bytes))) [
    | inl hit ↦ cc (find-hit n i hit)
    | inr miss ↦
        not-Occurs-from i j miss lo
          (λ lo'. find_from_complete n (i + 1) (sym (find-miss n i miss) ∙ h) j lo' (omega arith))
  ]

-- The answer is the first offset from a start on at which the pattern stands, and `none` where it
-- stands at none.
abbrev pub IsFirst : ℕ → List ℕ → ℕ → List ℕ → Option ℕ → Type 0
IsFirst p ps from bytes none = (j : ℕ) → from ≤ j → ¬ (Occurs p ps bytes j)
IsFirst p ps from bytes (some k) =
    (from ≤ k)
    × (k + length (p ∷ ps) ≤ length bytes)
    × Occurs p ps bytes k
    × ((j : ℕ) → from ≤ j → j < k → ¬ (Occurs p ps bytes j))

-- FindBytes at a start that is not negative, with a pattern that is not empty and fewer than 2 ^ 31
-- bytes to be read and in the pattern, returns the first offset from the start on at which the pattern
-- stands in the bytes to be read, and -1 where it stands at none.
pub find_bytes-IsFirst :
    (p : ℕ) (ps : List ℕ) (from : ℕ) {b : Buffer}
    → IsValid b
    → get_reading_size b < 2 ^ 31
    → length (p ∷ ps) < 2 ^ 31
    → IsFirst p ps from (contents b) (find_bytes (p ∷ ps) from b)
unfolding find_bytes find_limit
find_bytes-IsFirst p ps from {b} v small few =
    go (find_from rounds from p (p ∷ ps) (contents b)) refl
  where
    d_len : ℕ
    d_len = find_limit (length (p ∷ ps)) b

    rounds : ℕ
    rounds = if ltb d_len (2 ^ 31) then d_len + 1 - from else 0

    rounds-eq : rounds ≡ get_reading_size b + 1 - length (p ∷ ps) - from
    rounds-eq = ground arith

    occurs-bound : (j : ℕ) → Occurs p ps (contents b) j → j + length (p ∷ ps) ≤ length (contents b)
    occurs-bound j o = omega (
      arith,
      ap length o,
      length-take (length (p ∷ ps)) (drop j (contents b)),
      length-drop j (contents b),
    )

    go :
        (r : Option ℕ)
        → find_from rounds from p (p ∷ ps) (contents b) ≡ r
        → IsFirst p ps from (contents b) r
    go none e = λ j lo o.
        find_from_complete p ps (contents b) rounds from e j lo
          (omega (arith, occurs-bound j o, length-contents b v, rounds-eq)) o
    go (some k) e =
        let r = find_from_sound p ps (contents b) rounds from k e in
        (r.0, occurs-bound k r.2, r.2, r.3)
