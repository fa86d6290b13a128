-- ===== src/Heap/Moves.antt =====
-- What the moves of a sift keep: each node in the array knows its slot, no node is lost and none is
-- doubled. The node that is being placed is not in the array until `place` puts it into the hole.
use libnbf.Prelude.{
  ℕ, zero, suc, ◌*◌, ◌/◌, ◌≤◌, ◌<◌, ◌≡◌, ◌≢◌, refl, ◌∙◌, ◌&&◌, ◌⊎◌, inl, inr, arith, ltb, leb, ◌==◌,
  Bool-cases,
}
use libnbf.Heap.{Sift, move, place, sift_up, sift_down, min_child}

-- Slots 1 to `n` but the hole hold nodes that satisfy `P`, other than `node`, each with its slot.
pub record Coherent (P : ℕ → Type 0) (n node : ℕ) (s : Sift) : Type 0 where
  pub hole_in : (1 ≤ s.hole) × (s.hole ≤ n)
  pub indexed : (c : ℕ) → 1 ≤ c → c ≤ n → c ≢ s.hole → s.places (s.slots c) ≡ c
  pub apart : (c : ℕ) → 1 ≤ c → c ≤ n → c ≢ s.hole → s.slots c ≢ node
  pub members : (c : ℕ) → 1 ≤ c → c ≤ n → c ≢ s.hole → P (s.slots c)

-- `x` is the node that is being placed, or stands in the array.
abbrev pub Tracked : ℕ → ℕ → ℕ → Sift → Type 0
Tracked x n node s =
    (x ≡ node)
    ⊎ ((s.places x ≢ s.hole) × (1 ≤ s.places x) × (s.places x ≤ n) × (s.slots (s.places x) ≡ x))

module _ (P : ℕ → Type 0) (n node : ℕ) where
  pub move-Coherent :
      (from : ℕ) (s : Sift)
      → Coherent P n node s
      → 1 ≤ from
      → from ≤ n
      → from ≢ s.hole
      → Coherent P n node (move from s)
  unfolding move
  move-Coherent from s v lo hi ne = record {
    hole_in = (lo, hi);
    indexed = λ c p q r. ground (arith, v.indexed c, v.indexed from, v.hole_in);
    apart = λ c p q r. ground (arith, v.apart c, v.apart from);
    members = λ c p q r. members_of c p q r;
  }
    where
      members_of : (c : ℕ) → 1 ≤ c → c ≤ n → c ≢ from → P ((move from s).slots c)
      members_of c p q r = elim (Bool-cases (c == s.hole)) [
        | inl same ↦ rw same (v.members from lo hi ne)
        | inr other ↦ rw other (v.members c p q (ground arith))
      ]

  pub move-Tracked :
      (x from : ℕ) (s : Sift)
      → Coherent P n node s
      → 1 ≤ from
      → from ≤ n
      → from ≢ s.hole
      → Tracked x n node s
      → Tracked x n node (move from s)
  unfolding move
  move-Tracked x from s v lo hi ne (inl e) = inl e
  move-Tracked x from s v lo hi ne (inr t) = inr (ground (arith, v.hole_in))

  -- What a sift must satisfy for the lemmas below: it keeps the nodes, and writes no slot above `n`.
  pub record Kept (s t : Sift) : Type 0 where
    pub coherent : Coherent P n node t
    pub tracked : (x : ℕ) → Tracked x n node s → Tracked x n node t
    pub beyond : (c : ℕ) → n < c → t.slots c ≡ s.slots c

  Kept-refl : (s : Sift) → Coherent P n node s → Kept s s
  Kept-refl s v = record { coherent = v; tracked = λ x h. h; beyond = λ c h. refl }

  Kept-move :
      (from : ℕ) (s t : Sift)
      → Coherent P n node s
      → 1 ≤ from
      → from ≤ n
      → from ≢ s.hole
      → Kept (move from s) t
      → Kept s t
  unfolding move
  Kept-move from s t v lo hi ne k = record {
    coherent = k.coherent;
    tracked = λ x h. k.tracked x (move-Tracked x from s v lo hi ne h);
    beyond = λ c h. k.beyond c h ∙ ground (arith, v.hole_in);
  }

min_child_bounds :
    (key : ℕ → ℕ) (node num : ℕ) (s : Sift)
    → 1 ≤ s.hole
    → s.hole * 2 ≤ num
    → let m = min_child key node num s in (m / 2 ≡ s.hole) × (m ≤ num) × (s.hole < m)
unfolding min_child
min_child_bounds key node num s pos h = ground arith

module _ (P : ℕ → Type 0) (n : ℕ) (key : ℕ → ℕ) (node : ℕ) where
  pub sift_up-Kept :
      (fuel : ℕ) (s : Sift) → Coherent P n node s → Kept P n node s (sift_up key node fuel s)
  unfolding sift_up
  sift_up-Kept zero s v = Kept-refl P n node s v
  sift_up-Kept (suc fuel) s v =
      elim (Bool-cases (ltb 1 s.hole && ltb (key node) (key (s.slots (s.hole / 2))))) [
        | inl rises ↦
            let half : (1 ≤ s.hole / 2) × (s.hole / 2 ≤ n) × (s.hole / 2 ≢ s.hole) =
              ground (arith, v.hole_in) in
            rw rises (
              Kept-move P n node (s.hole / 2) s _ v half.0 half.1 half.2 (
                sift_up-Kept fuel (move (s.hole / 2) s)
                  (move-Coherent P n node (s.hole / 2) s v half.0 half.1 half.2)))
        | inr stays ↦ rw stays (Kept-refl P n node s v)
      ]

  pub sift_down-Kept :
      (fuel : ℕ) (s : Sift) → Coherent P n node s → Kept P n node s (sift_down key node n fuel s)
  unfolding sift_down
  sift_down-Kept zero s v = Kept-refl P n node s v
  sift_down-Kept (suc fuel) s v = elim (Bool-cases (leb (s.hole * 2) n)) [
    | inr leaf ↦ rw leaf (Kept-refl P n node s v)
    | inl inner ↦ elim (Bool-cases (ltb (key node) (key (s.slots (min_child key node n s))))) [
      | inl stops ↦ rw (inner, stops) (Kept-refl P n node s v)
      | inr sinks ↦
          let m = min_child key node n s in
          let b = min_child_bounds key node n s v.hole_in.0 (ground arith) in
          rw (inner, sinks)
            (Kept-move P n node m s _ v (omega (arith, b)) b.1 (omega (arith, b)) (
              sift_down-Kept fuel (move m s)
                (move-Coherent P n node m s v (omega (arith, b)) b.1 (omega (arith, b)))))
    ]
  ]

-- What stands in the array after the node has been placed.
pub record Placed (P : ℕ → Type 0) (n node : ℕ) (s t : Sift) : Type 0 where
  pub indexed : (c : ℕ) → 1 ≤ c → c ≤ n → t.places (t.slots c) ≡ c
  pub members : (c : ℕ) → 1 ≤ c → c ≤ n → P (t.slots c)
  pub tracked :
      (x : ℕ)
      → Tracked x n node s
      → (1 ≤ t.places x) × (t.places x ≤ n) × (t.slots (t.places x) ≡ x)
  pub beyond : (c : ℕ) → n < c → t.slots c ≡ s.slots c

pub place-Placed :
    (P : ℕ → Type 0) (n node : ℕ) (s t : Sift)
    → P node
    → Kept P n node s t
    → Placed P n node s (place node t)
unfolding place
place-Placed P n node s t p k = record {
  indexed = λ c lo hi. ground (arith, k.coherent.indexed c, k.coherent.apart c);
  members = λ c lo hi. members_of c lo hi;
  tracked = λ x h. tracked_of x (k.tracked x h);
  beyond = λ c h. ground (arith, k.beyond c h, k.coherent.hole_in);
}
  where
    members_of : (c : ℕ) → 1 ≤ c → c ≤ n → P ((place node t).slots c)
    members_of c lo hi = elim (Bool-cases (c == t.hole)) [
      | inl same ↦ rw same p
      | inr other ↦ rw other (k.coherent.members c lo hi (ground arith))
    ]

    tracked_of :
        (x : ℕ)
        → Tracked x n node t
        → let u = place node t in (1 ≤ u.places x) × (u.places x ≤ n) × (u.slots (u.places x) ≡ x)
    tracked_of x h = ground (arith, k.coherent.hole_in)
