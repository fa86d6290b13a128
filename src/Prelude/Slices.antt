-- ===== src/Prelude/Slices.antt =====
-- Laws of `take`, `drop` and `++` under native indices.
use Prim.Native.Nat.{ℕ, zero, suc, ◌+◌, ◌-◌, ◌≤◌}
use mathlib.Core.Path.{◌≡◌, refl, ap, sym, ◌∙◌}
use mathlib.Core.List.{List, [], ◌∷◌, ◌++◌}
use native.Mathlib.Omega.{arith}
use libnbf.Prelude.Lists.{length, take, drop, length-take, length-drop, length-append}

pub take-nil {ℓ} : {A : Type ℓ} (n : ℕ) → ◌≡◌ {A = List A} (take n []) []
take-nil zero = refl
take-nil (suc n) = refl

pub drop-nil {ℓ} : {A : Type ℓ} (n : ℕ) → ◌≡◌ {A = List A} (drop n []) []
drop-nil zero = refl
drop-nil (suc n) = refl

module _ {ℓ} {A : Type ℓ} where
  pub take-append_le : (n : ℕ) (xs ys : List A) → n ≤ length xs → take n (xs ++ ys) ≡ take n xs
  take-append_le zero xs ys h = refl
  take-append_le (suc n) [] ys h = absurd (omega arith)
  take-append_le (suc n) (x ∷ xs) ys h = ap (◌∷◌ x) (take-append_le n xs ys (omega arith))

  pub drop-append_le :
      (n : ℕ) (xs ys : List A) → n ≤ length xs → drop n (xs ++ ys) ≡ drop n xs ++ ys
  drop-append_le zero xs ys h = refl
  drop-append_le (suc n) [] ys h = absurd (omega arith)
  drop-append_le (suc n) (x ∷ xs) ys h = drop-append_le n xs ys (omega arith)

  pub take-append_add :
      (n k m : ℕ) (xs ys : List A) → n ≡ length xs → m ≡ n + k → take m (xs ++ ys) ≡ xs ++ take k ys
  take-append_add n k m [] ys h e = let e' : m ≡ k = omega arith in ap (λ t. take t ys) e'
  take-append_add n k zero (x ∷ xs) ys h e = absurd (omega arith)
  take-append_add n k (suc m) (x ∷ xs) ys h e =
      ap (◌∷◌ x) (take-append_add (length xs) k m xs ys refl (omega arith))

  pub take-append_self : (n : ℕ) (xs ys : List A) → n ≡ length xs → take n (xs ++ ys) ≡ xs
  take-append_self zero [] ys h = refl
  take-append_self zero (x ∷ xs) ys h = absurd (omega arith)
  take-append_self (suc n) [] ys h = absurd (omega arith)
  take-append_self (suc n) (x ∷ xs) ys h = ap (◌∷◌ x) (take-append_self n xs ys (omega arith))

  pub drop-append_self : (n : ℕ) (xs ys : List A) → n ≡ length xs → drop n (xs ++ ys) ≡ ys
  drop-append_self zero [] ys h = refl
  drop-append_self zero (x ∷ xs) ys h = absurd (omega arith)
  drop-append_self (suc n) [] ys h = absurd (omega arith)
  drop-append_self (suc n) (x ∷ xs) ys h = drop-append_self n xs ys (omega arith)

  pub take_all : (n : ℕ) (xs : List A) → length xs ≤ n → take n xs ≡ xs
  take_all zero [] h = refl
  take_all zero (x ∷ xs) h = absurd (omega arith)
  take_all (suc n) [] h = refl
  take_all (suc n) (x ∷ xs) h = ap (◌∷◌ x) (take_all n xs (omega arith))

  pub drop_all : (n : ℕ) (xs : List A) → length xs ≤ n → drop n xs ≡ []
  drop_all zero [] h = refl
  drop_all zero (x ∷ xs) h = absurd (omega arith)
  drop_all (suc n) [] h = refl
  drop_all (suc n) (x ∷ xs) h = drop_all n xs (omega arith)

  pub drop-take : (n m : ℕ) (xs : List A) → drop n (take m xs) ≡ take (m - n) (drop n xs)
  drop-take zero m xs = let e : m ≡ m - 0 = omega arith in ap (λ t. take t xs) e
  drop-take (suc n) zero [] = let e : 0 ≡ 0 - suc n = omega arith in ap (λ t. take t []) e
  drop-take (suc n) zero (x ∷ xs) =
      let e : 0 ≡ 0 - suc n = omega arith in ap (λ t. take t (drop n xs)) e
  drop-take (suc n) (suc m) [] = sym (take-nil (suc m - suc n))
  drop-take (suc n) (suc m) (x ∷ xs) =
      let e : m - n ≡ suc m - suc n = omega arith in
      drop-take n m xs ∙ ap (λ t. take t (drop n xs)) e

  pub drop-drop : (n m : ℕ) (xs : List A) → drop n (drop m xs) ≡ drop (m + n) xs
  drop-drop n zero xs = let e : n ≡ 0 + n = omega arith in ap (λ t. drop t xs) e
  drop-drop n (suc m) [] = drop-nil n ∙ sym (drop-nil (suc m + n))
  drop-drop n (suc m) (x ∷ xs) =
      let e : suc (m + n) ≡ suc m + n = omega arith in
      drop-drop n m xs ∙ ap (λ t. drop t (x ∷ xs)) e

  pub length-slice : (xs : List A) (a n : ℕ) → a + n ≤ length xs → length (take n (drop a xs)) ≡ n
  length-slice xs a n h = omega (arith, length-take n (drop a xs), length-drop a xs)

  -- A copy into the middle leaves the length as it is.
  pub length-splice :
      (xs d : List A) (p : ℕ)
      → p + length d ≤ length xs
      → length (take p xs ++ (d ++ drop (p + length d) xs)) ≡ length xs
  length-splice xs d p h = omega (
    arith,
    length-append (take p xs) (d ++ drop (p + length d) xs),
    length-append d (drop (p + length d) xs),
    length-take p xs,
    length-drop (p + length d) xs,
  )

  -- What a copy just past a slice makes of the slice.
  pub slice-splice :
      (xs d : List A) (r w : ℕ)
      → r ≤ w
      → w + length d ≤ length xs
      → take (w + length d - r) (drop r (take w xs ++ (d ++ drop (w + length d) xs)))
        ≡ take (w - r) (drop r xs) ++ d
  slice-splice xs d r w h k =
      rw
        (
          drop-append_le r (take w xs) (d ++ drop (w + length d) xs)
              (omega (arith, length-take w xs)),
          drop-take r w xs,
          take-append_add (w - r) (length d) (w + length d - r) (take (w - r) (drop r xs))
              (d ++ drop (w + length d) xs) (sym_length) (omega arith),
        )
        (ap (λ t. take (w - r) (drop r xs) ++ t) (take-append_self (length d) d _ refl))
    where
      sym_length : w - r ≡ length (take (w - r) (drop r xs))
      sym_length = omega (arith, length-slice xs r (w - r))
