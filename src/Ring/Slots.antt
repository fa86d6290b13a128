-- ===== src/Ring/Slots.antt =====
-- The slots of a lap, and the places of a list that grows.
use native.Mathlib.Nat.{mod-add-mod, mod-eq_of_lt, mod-eq-sub-mod, mod-lt}
use libnbf.Prelude.{
  ℕ, zero, suc, ◌+◌, ◌-◌, ◌%◌, ◌<◌, ◌≡◌, ◌≢◌, refl, ap, sym, ◌∙◌, true, false, List, [], ◌∷◌, ◌++◌,
  Option, none, some, ltb, ◌==◌, arith, Bool-cases, inl, inr, ◌⊎◌, length, get_elem?,
}
use libnbf.Prelude.Memory.{update}

-- Two slots of a lap.
folded : (a m : ℕ) → a < m + m → ((a % m ≡ a) × (a < m)) ⊎ (a % m + m ≡ a)
folded a m h = elim (Bool-cases (ltb a m)) [
  | inl low ↦ inl (mod-eq_of_lt (ground arith), ground arith)
  | inr high ↦
      let back : a % m ≡ (a - m) % m = mod-eq-sub-mod (ground arith) in
      let rest : (a - m) % m ≡ a - m = mod-eq_of_lt (ground arith) in
      inr (ground (arith, back, rest))
]

apart_from : (s i n m : ℕ) → s < m → i < n → n < m → (s + i) % m ≢ (s + n) % m
apart_from s i n m h k l e = elim (folded (s + i) m (omega arith)) [
  | inl p ↦ elim (folded (s + n) m (omega arith)) [
    | inl q ↦ omega (arith, p.0, q.0, e)
    | inr q ↦ omega (arith, p.0, q, e)
  ]
  | inr p ↦ elim (folded (s + n) m (omega arith)) [
    | inl q ↦ omega (arith, p, q.0, q.1, e)
    | inr q ↦ omega (arith, p, q, e)
  ]
]

pub slots_apart : (t i n m : ℕ) → i < n → n < m → (t + i) % m ≢ (t + n) % m
slots_apart t i n m k l e =
    apart_from (t % m) i n m (mod-lt t (omega arith)) k l
      (mod-add-mod t m i ∙ e ∙ sym (mod-add-mod t m n))

module _ {Data : Type 0} where
  pub update_at : (f : ℕ → Data) (i : ℕ) (v : Data) → update f i v i ≡ v
  update_at f i v = let same : (i == i) ≡ true = ground arith in rw same refl

  pub update_elsewhere : (f : ℕ → Data) (i j : ℕ) (v : Data) → j ≢ i → update f i v j ≡ f j
  update_elsewhere f i j v ne = let other : (j == i) ≡ false = ground (arith, ne) in rw other refl

  some_inj : {x y : Data} → ◌≡◌ {A = Option Data} (some x) (some y) → x ≡ y
  some_inj {x = x} e = ap (λ o. elim o [ none ↦ x | some z ↦ z ]) e

  -- A place of a list that has grown by one.
  pub grown :
      (xs : List Data) (x : Data) (i : ℕ) (y : Data)
      → get_elem? (xs ++ (x ∷ [])) i ≡ some y
      → ((i < length xs) × (get_elem? xs i ≡ some y)) ⊎ ((i ≡ length xs) × (x ≡ y))
  grown [] x zero y e = inr (refl, some_inj e)
  grown [] x (suc i) y e = cc
  grown (z ∷ xs) x zero y e = inl (omega arith, e)
  grown (z ∷ xs) x (suc i) y e = elim (grown xs x i y e) [
    | inl p ↦ inl (omega (arith, p.0), p.1)
    | inr p ↦ inr (ap suc p.0, p.1)
  ]
