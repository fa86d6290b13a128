-- ===== src/Prelude/TextMap.antt =====
-- std::map with texts for keys: the entries in the order of their keys, as operator< on std::string
-- compares them. The keys are lists of bytes.
pub mod Last
use libnbf.Prelude.{
  ℕ, Bool, true, false, ◌&&◌, ◌||◌, List, [], ◌∷◌, ◌++◌, Option, none, some, ltb, ◌==◌,
  if◌then◌else◌, Bool-cases, ◌≡◌, refl, ap, ap₂, sym, ◌∙◌, ◌⊎◌, inl, inr, arith,
}

unfoldable pub same_text : List ℕ → List ℕ → Bool
same_text [] [] = true
same_text [] (y ∷ ys) = false
same_text (x ∷ xs) [] = false
same_text (x ∷ xs) (y ∷ ys) = (x == y) && same_text xs ys

-- operator< on texts.
unfoldable pub before : List ℕ → List ℕ → Bool
before xs [] = false
before [] (y ∷ ys) = true
before (x ∷ xs) (y ∷ ys) = ltb x y || ((x == y) && before xs ys)

pub same_text_refl : (xs : List ℕ) → same_text xs xs ≡ true
unfolding same_text
same_text_refl [] = refl
same_text_refl (x ∷ xs) = ground (arith, same_text_refl xs)

pub same_text-eq : (xs ys : List ℕ) → same_text xs ys ≡ true → xs ≡ ys
unfolding same_text
same_text-eq [] [] h = refl
same_text-eq [] (y ∷ ys) h = cc
same_text-eq (x ∷ xs) [] h = cc
same_text-eq (x ∷ xs) (y ∷ ys) h = elim (Bool-cases (x == y)) [
  | inl e ↦ ap₂ ◌∷◌ (ground arith) (same_text-eq xs ys (ground arith))
  | inr n ↦ absurd (ground arith)
]

pub before_trans :
    (xs ys zs : List ℕ) → before xs ys ≡ true → before ys zs ≡ true → before xs zs ≡ true
unfolding before
before_trans xs ys [] h k = cc
before_trans xs [] (z ∷ zs) h k = cc
before_trans [] (y ∷ ys) (z ∷ zs) h k = refl
before_trans (x ∷ xs) (y ∷ ys) (z ∷ zs) h k = ground (arith, before_trans xs ys zs)

-- Of two different texts one stands before the other.
pub before-total :
    (xs ys : List ℕ) → same_text xs ys ≡ false → before xs ys ≡ false → before ys xs ≡ true
unfolding before same_text
before-total [] [] h k = cc
before-total [] (y ∷ ys) h k = cc
before-total (x ∷ xs) [] h k = refl
before-total (x ∷ xs) (y ∷ ys) h k = ground (arith, before-total xs ys)

pub before_irrefl : (xs ys : List ℕ) → before xs ys ≡ true → same_text ys xs ≡ false
unfolding before same_text
before_irrefl [] [] h = cc
before_irrefl (x ∷ xs) [] h = cc
before_irrefl [] (y ∷ ys) h = refl
before_irrefl (x ∷ xs) (y ∷ ys) h = ground (arith, before_irrefl xs ys)

abbrev pub TextMap {ℓ} : Type ℓ → Type ℓ
TextMap V = List (List ℕ × V)

module _ {ℓ} {V : Type ℓ} where
  unfoldable pub find : List ℕ → TextMap V → Option V
  find k [] = none
  find k (e ∷ m) = if same_text k e.0 then some e.1 else find k m

  -- Where a new key goes.
  unfoldable pub place : List ℕ → V → TextMap V → TextMap V
  place k v [] = (k, v) ∷ []
  place k v (e ∷ m) = let rest = place k v m in if before k e.0 then (k, v) ∷ e ∷ m else e ∷ rest

  -- m.insert(value_type(k, v)): an entry of the key stays, and the flag says whether one was added.
  unfoldable pub insert : List ℕ → V → TextMap V → TextMap V × Bool
  insert k v m = elim (find k m) [ none ↦ (place k v m, true) | some w ↦ (m, false) ]

  pub insert-new :
      (k : List ℕ) (v : V) (m : TextMap V) → find k m ≡ none → insert k v m ≡ (place k v m, true)
  unfolding insert
  insert-new k v m h = ground arith

  pub insert-old :
      (k : List ℕ) (v w : V) (m : TextMap V) → find k m ≡ some w → insert k v m ≡ (m, false)
  unfolding insert
  insert-old k v w m h = ground arith

  -- An assignment through the pointer that is the entry's value.
  unfoldable pub replace : List ℕ → V → TextMap V → TextMap V
  replace k v [] = []
  replace k v (e ∷ m) = let rest = replace k v m in if same_text k e.0 then (k, v) ∷ m else e ∷ rest

  unfoldable pub erase : List ℕ → TextMap V → TextMap V
  erase k [] = []
  erase k (e ∷ m) = let rest = erase k m in if same_text k e.0 then rest else e ∷ rest

  -- Every key of the map stands behind `k`.
  abbrev pub AllBehind : List ℕ → TextMap V → Type 0
  AllBehind k [] = Unit
  AllBehind k (e ∷ m) = (before k e.0 ≡ true) × AllBehind k m

  abbrev pub IsSorted : TextMap V → Type 0
  IsSorted [] = Unit
  IsSorted (e ∷ m) = AllBehind e.0 m × IsSorted m

  pub find-place :
      (j k : List ℕ) (v : V) (m : TextMap V)
      → find k m ≡ none
      → find j (place k v m) ≡ (if same_text j k then some v else find j m)
  unfolding find place
  find-place j k v [] h = refl
  find-place j k v (e ∷ m) h = elim (Bool-cases (same_text k e.0)) [
    | inl same ↦ absurd (ground arith)
    | inr other ↦
        ground (arith, find-place j k v m (ground arith), same_text-eq j k, same_text-eq j e.0)
  ]

  pub find-replace :
      (j k : List ℕ) (v w : V) (m : TextMap V)
      → find k m ≡ some w
      → find j (replace k v m) ≡ (if same_text j k then some v else find j m)
  unfolding find replace
  find-replace j k v w [] h = absurd (ground arith)
  find-replace j k v w (e ∷ m) h = elim (Bool-cases (same_text k e.0)) [
    | inl same ↦ rw (same, same_text-eq k e.0 same) (ground arith)
    | inr other ↦ ground (arith, find-replace j k v w m (ground arith), same_text-eq j k)
  ]

  pub find-erase :
      (j k : List ℕ) (m : TextMap V)
      → find j (erase k m) ≡ (if same_text j k then none else find j m)
  unfolding find erase
  find-erase j k [] = ground arith
  find-erase j k (e ∷ m) =
      ground (arith, find-erase j k m, same_text-eq j k, same_text-eq k e.0, same_text_refl e.0)

  -- What holds of the value of each entry.
  abbrev pub AllEntries {κ} : (List ℕ → V → Type κ) → TextMap V → Type κ
  AllEntries P [] = Unit
  AllEntries P (e ∷ m) = P e.0 e.1 × AllEntries P m

  AllBehind-trans :
      (j k : List ℕ) (m : TextMap V) → before j k ≡ true → AllBehind k m → AllBehind j m
  AllBehind-trans j k [] h b = tt
  AllBehind-trans j k (e ∷ m) h b = (before_trans j k e.0 h b.0, AllBehind-trans j k m h b.1)

  place-AllBehind :
      (j k : List ℕ) (v : V) (m : TextMap V)
      → before j k ≡ true
      → AllBehind j m
      → AllBehind j (place k v m)
  unfolding place
  place-AllBehind j k v [] h b = (h, tt)
  place-AllBehind j k v (e ∷ m) h b = elim (Bool-cases (before k e.0)) [
    | inl first ↦ rw first (h, b)
    | inr later ↦ rw later (b.0, place-AllBehind j k v m h b.1)
  ]

  pub place-IsSorted :
      (k : List ℕ) (v : V) (m : TextMap V) → find k m ≡ none → IsSorted m → IsSorted (place k v m)
  unfolding place find
  place-IsSorted k v [] h s = (tt, tt)
  place-IsSorted k v (e ∷ m) h s = elim (Bool-cases (same_text k e.0)) [
    | inl same ↦ absurd (ground arith)
    | inr other ↦ elim (Bool-cases (before k e.0)) [
      | inl first ↦ rw first ((first, AllBehind-trans k e.0 m first s.0), s)
      | inr later ↦ rw later (
        place-AllBehind e.0 k v m (before-total k e.0 other later) s.0,
        place-IsSorted k v m (ground arith) s.1,
      )
    ]
  ]

  erase-AllBehind : (j k : List ℕ) (m : TextMap V) → AllBehind j m → AllBehind j (erase k m)
  unfolding erase
  erase-AllBehind j k [] b = tt
  erase-AllBehind j k (e ∷ m) b = ground (arith, erase-AllBehind j k m b.1)

  pub erase-IsSorted : (k : List ℕ) (m : TextMap V) → IsSorted m → IsSorted (erase k m)
  unfolding erase
  erase-IsSorted k [] s = tt
  erase-IsSorted k (e ∷ m) s = elim (Bool-cases (same_text k e.0)) [
    | inl same ↦ rw same (erase-IsSorted k m s.1)
    | inr other ↦ rw other (erase-AllBehind e.0 k m s.0, erase-IsSorted k m s.1)
  ]

  replace-AllBehind :
      (j k : List ℕ) (v : V) (m : TextMap V) → AllBehind j m → AllBehind j (replace k v m)
  unfolding replace
  replace-AllBehind j k v [] b = tt
  replace-AllBehind j k v (e ∷ m) b = elim (Bool-cases (same_text k e.0)) [
    | inl same ↦ rw (same, same_text-eq k e.0 same) b
    | inr other ↦ rw other (b.0, replace-AllBehind j k v m b.1)
  ]

  pub replace-IsSorted :
      (k : List ℕ) (v : V) (m : TextMap V) → IsSorted m → IsSorted (replace k v m)
  unfolding replace
  replace-IsSorted k v [] s = tt
  replace-IsSorted k v (e ∷ m) s = elim (Bool-cases (same_text k e.0)) [
    | inl same ↦ rw (same, same_text-eq k e.0 same) s
    | inr other ↦ rw other (replace-AllBehind e.0 k v m s.0, replace-IsSorted k v m s.1)
  ]

  module _ {κ} (P : List ℕ → V → Type κ) where
    pub find-AllEntries :
        (k : List ℕ) (v : V) (m : TextMap V) → AllEntries P m → find k m ≡ some v → P k v
    unfolding find
    find-AllEntries k v [] a h = absurd (ground arith)
    find-AllEntries k v (e ∷ m) a h = elim (Bool-cases (same_text k e.0)) [
      | inl same ↦ rw (same_text-eq k e.0 same, sym (found same)) a.0
      | inr other ↦ find-AllEntries k v m a.1 (ground arith)
    ]
      where
        found : same_text k e.0 ≡ true → e.1 ≡ v
        found same = ground arith

    pub place-AllEntries :
        (k : List ℕ) (v : V) (m : TextMap V) → P k v → AllEntries P m → AllEntries P (place k v m)
    unfolding place
    place-AllEntries k v [] p a = (p, tt)
    place-AllEntries k v (e ∷ m) p a = elim (Bool-cases (before k e.0)) [
      | inl first ↦ rw first (p, a)
      | inr later ↦ rw later (a.0, place-AllEntries k v m p a.1)
    ]

    pub replace-AllEntries :
        (k : List ℕ) (v : V) (m : TextMap V) → P k v → AllEntries P m → AllEntries P (replace k v m)
    unfolding replace
    replace-AllEntries k v [] p a = tt
    replace-AllEntries k v (e ∷ m) p a = elim (Bool-cases (same_text k e.0)) [
      | inl same ↦ rw same (p, a.1)
      | inr other ↦ rw other (a.0, replace-AllEntries k v m p a.1)
    ]

    pub erase-AllEntries : (k : List ℕ) (m : TextMap V) → AllEntries P m → AllEntries P (erase k m)
    unfolding erase
    erase-AllEntries k [] a = tt
    erase-AllEntries k (e ∷ m) a = elim (Bool-cases (same_text k e.0)) [
      | inl same ↦ rw same (erase-AllEntries k m a.1)
      | inr other ↦ rw other (a.0, erase-AllEntries k m a.1)
    ]
