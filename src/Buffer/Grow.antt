-- ===== src/Buffer/Grow.antt =====
-- The doubling loops of Buffer::EnsureSize.
use native.Mathlib.Nat.{pow-succ'}
use libnbf.Prelude.{
  ℕ, zero, suc, ◌+◌, ◌*◌, ◌^◌, ◌≤◌, ◌<◌, ◌≡◌, ◌∙◌, Option, some, arith, ap, ltb, Bool-cases, inl,
  inr, true, false,
}
use libnbf.Prelude.Words.{mul64, sub64, sub64-eq}
use libnbf.Buffer.{grow}

pub mul64-two : (a : ℕ) → a < 2 ^ 63 → mul64 a 2 ≡ a * 2
unfolding mul64
mul64-two a h = omega arith

-- One round.
grow-more :
    (fuel size used need : ℕ)
    → ltb (sub64 size used) need ≡ true
    → grow (suc fuel) size used need ≡ grow fuel (mul64 size 2) used need
unfolding grow
grow-more fuel size used need h = rw h

grow-done :
    (fuel size used need : ℕ)
    → ltb (sub64 size used) need ≡ false
    → grow (suc fuel) size used need ≡ some size
unfolding grow
grow-done fuel size used need h = rw h

-- The result of a loop that ends with enough room.
pub record Grown (size used need : ℕ) (r : Option ℕ) : Type 0 where
  pub result : ℕ
  pub ends : r ≡ some result
  pub room : used + need ≤ result
  pub small : result ≤ 2 ^ 63
  pub larger : size ≤ result

done_Grown :
    (fuel size used need : ℕ)
    → used ≤ size
    → size ≤ 2 ^ 63
    → ltb (sub64 size used) need ≡ false
    → Grown size used need (grow (suc fuel) size used need)
done_Grown fuel size used need h₁ h₂ done = record {
  result = size;
  ends = grow-done fuel size used need done;
  room = ground (arith, sub64-eq size used);
  small = h₂;
  larger = omega arith;
}

-- The loop ends with room for what is needed, and no product wraps.
pub grow_ends :
    (fuel size used need : ℕ)
    → used ≤ size
    → size ≤ 2 ^ 63
    → used + need ≤ 2 ^ 62
    → used + need ≤ size * 2 ^ fuel
    → Grown size used need (grow (suc fuel) size used need)
grow_ends zero size used need h₁ h₂ h₃ h₄ =
    done_Grown zero size used need h₁ h₂ (ground (arith, sub64-eq size used))
grow_ends (suc fuel) size used need h₁ h₂ h₃ h₄ = elim (Bool-cases (ltb (sub64 size used) need)) [
  | inl more ↦
      let small : size < 2 ^ 62 = ground (arith, sub64-eq size used) in
      let g =
        grow_ends fuel (size * 2) used need (omega arith) (omega arith) h₃
          (omega (arith, ap (λ (t : ℕ). size * t) (pow-succ' 2 fuel))) in
      record {
        result = g.result;
        ends = grow-more (suc fuel) size used need more ∙ rw (mul64-two size (omega arith)) g.ends;
        room = g.room;
        small = g.small;
        larger = omega arith;
      }
  | inr done ↦ done_Grown (suc fuel) size used need h₁ h₂ done
]
