-- ===== src/Http/Framing/Numbers.antt =====
-- The digits of a number are read back.
use libnbf.Prelude.{
  ℕ, zero, suc, ◌+◌, ◌*◌, ◌/◌, ◌%◌, ◌^◌, ◌<◌, ◌≡◌, refl, ◌∙◌, ap, List, [], ◌∷◌, true, Bool-cases,
  inl, inr, ltb, arith,
}
use libnbf.Prelude.{◌-◌}
use libnbf.Prelude.Clib.{digits, decimal_on, print_64, is_digit}
use libnbf.Text.Split.{Lacks}
use libnbf.Http.Framing.{spaces_off}

-- What digits gives does not depend on how many were read before.
digits-any : (acc r r' : ℕ) (s : List ℕ) → (digits acc r s).0 ≡ (digits acc r' s).0
unfolding digits
digits-any acc r r' [] = refl
digits-any acc r r' (c ∷ s) = ground (arith, digits-any (acc * 10 + (c - 48)) (r + 1) (r' + 1) s)

digit_step :
    (n d : ℕ) (ds : List ℕ) → d < 10 → (digits n 0 ((48 + d) ∷ ds)).0 ≡ (digits (n * 10 + d) 0 ds).0
unfolding digits
digit_step n d ds h = rw (is_digit-add d h, minus d) (digits-any (n * 10 + d) 1 0 ds)
  where
    is_digit-add : (e : ℕ) → e < 10 → is_digit (48 + e) ≡ true
    is_digit-add e k = ground arith

    minus : (e : ℕ) → 48 + e - 48 ≡ e
    minus e = omega arith

digits-decimal_on :
    (fuel n : ℕ) (ds : List ℕ)
    → n < 10 ^ fuel
    → (digits 0 0 (decimal_on fuel n ds)).0 ≡ (digits n 0 ds).0
unfolding decimal_on
digits-decimal_on zero n ds h = ap (λ k. (digits k 0 ds).0) (omega arith)
digits-decimal_on (suc fuel) n ds h = elim (Bool-cases (ltb n 10)) [
  | inl one ↦ rw one (digit_step 0 n ds (ground arith) ∙ ap (λ k. (digits k 0 ds).0) (omega arith))
  | inr more ↦ rw more (
      digits-decimal_on fuel (n / 10) ((48 + n % 10) ∷ ds) (grind arith)
      ∙ digit_step (n / 10) (n % 10) ds (omega arith)
      ∙ ap (λ k. (digits k 0 ds).0) (omega arith))
]

pub digits-print_64 : (n : ℕ) → n < 2 ^ 64 → (digits 0 0 (print_64 n)).0 ≡ n
unfolding print_64 digits
digits-print_64 n h = digits-decimal_on 20 (n % 2 ^ 64) [] (omega arith) ∙ omega arith

-- The digits hold no carriage return.
decimal_on-Lacks : (fuel n : ℕ) (ds : List ℕ) → Lacks 13 ds → Lacks 13 (decimal_on fuel n ds)
unfolding decimal_on
decimal_on-Lacks zero n ds h = h
decimal_on-Lacks (suc fuel) n ds h =
    ground (arith, decimal_on-Lacks fuel (n / 10) ((48 + n % 10) ∷ ds) (omega arith, h))

pub print_64-Lacks : (n : ℕ) → Lacks 13 (print_64 n)
unfolding print_64
print_64-Lacks n = decimal_on-Lacks 20 (n % 2 ^ 64) [] tt

-- The first digit is no space.
decimal_on-spaces_off :
    (fuel n : ℕ) (ds : List ℕ)
    → spaces_off ds ≡ ds
    → spaces_off (decimal_on fuel n ds) ≡ decimal_on fuel n ds
unfolding decimal_on
decimal_on-spaces_off zero n ds h = h
decimal_on-spaces_off (suc fuel) n ds h =
    ground (arith, decimal_on-spaces_off fuel (n / 10) ((48 + n % 10) ∷ ds))

pub print_64-spaces_off : (n : ℕ) → spaces_off (print_64 n) ≡ print_64 n
unfolding print_64
print_64-spaces_off n = decimal_on-spaces_off 20 (n % 2 ^ 64) [] refl
