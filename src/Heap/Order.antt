-- ===== src/Heap/Order.antt =====
-- The heap order, and the two sifts that restore it.
use libnbf.Prelude.{
  ℕ, zero, suc, ◌+◌, ◌*◌, ◌/◌, ◌≤◌, ◌<◌, ◌≡◌, ◌≢◌, ◌&&◌, ◌⊎◌, inl, inr, arith, ltb, leb, Bool-cases,
}
use libnbf.Prelude.Memory.{update}
use libnbf.Heap.{Sift, move, sift_up, sift_down, min_child}

-- No key is below the key of its parent.
abbrev pub IsHeap : (ℕ → ℕ) → (ℕ → ℕ) → ℕ → Type 0
IsHeap key slots n = (c : ℕ) → 1 < c → c ≤ n → key (slots (c / 2)) ≤ key (slots c)

-- The array with the node in the hole.
abbrev pub view : ℕ → Sift → ℕ → ℕ
view node s = update s.slots s.hole node

module _ (key : ℕ → ℕ) (n node : ℕ) where
  -- The edges past the hole, from its parent to its children, are in order.
  abbrev pub IsBridged : Sift → Type 0
  IsBridged s =
      (c : ℕ)
      → c ≤ n
      → c / 2 ≡ s.hole
      → 1 < s.hole
      → key (view node s (s.hole / 2)) ≤ key (view node s c)

  -- Only the edge above the hole may be out of order.
  pub record UpInv (s : Sift) : Type 0 where
    pub inside : (1 ≤ s.hole) × (s.hole ≤ n)
    pub edges :
        (c : ℕ) → 1 < c → c ≤ n → c ≢ s.hole → key (view node s (c / 2)) ≤ key (view node s c)
    pub bridged : IsBridged s

  -- Only the edges below the hole may be out of order.
  pub record DownInv (s : Sift) : Type 0 where
    pub inside : (1 ≤ s.hole) × (s.hole ≤ n)
    pub edges :
        (c : ℕ) → 1 < c → c ≤ n → c / 2 ≢ s.hole → key (view node s (c / 2)) ≤ key (view node s c)
    pub bridged : IsBridged s

  move-UpInv :
      (s : Sift)
      → UpInv s
      → 1 < s.hole
      → key node < key (s.slots (s.hole / 2))
      → UpInv (move (s.hole / 2) s)
  unfolding move
  move-UpInv s v pos below = record {
    inside = ground (arith, v.inside);
    edges = λ c p q r. ground (arith, v.edges c, v.edges s.hole, v.bridged c, v.inside);
    bridged = λ c p q r. ground (arith, v.edges c, v.edges (s.hole / 2), v.inside);
  }

  pub sift_up_orders :
      (fuel : ℕ) (s : Sift)
      → s.hole ≤ fuel
      → UpInv s
      → IsHeap key (view node (sift_up key node fuel s)) n
  unfolding sift_up
  sift_up_orders zero s f v = absurd (omega (arith, v.inside))
  sift_up_orders (suc fuel) s f v =
      elim (Bool-cases (ltb 1 s.hole && ltb (key node) (key (s.slots (s.hole / 2))))) [
        | inl rises ↦ rw rises (
            sift_up_orders fuel (move (s.hole / 2) s) (unfold move in ground arith)
              (move-UpInv s v (ground arith) (ground arith)))
        | inr stays ↦ rw stays (λ c p q. ground (arith, v.edges c, v.edges s.hole, v.inside))
      ]

  -- `m` is the child of the hole with the lesser key.
  record IsLeastChild (s : Sift) (m : ℕ) : Type 0 where
    child : (m / 2 ≡ s.hole) × (m ≤ n) × (s.hole < m)
    least : (c : ℕ) → c ≤ n → c / 2 ≡ s.hole → key (s.slots m) ≤ key (s.slots c)

  min_child-IsLeastChild :
      (s : Sift) → 1 ≤ s.hole → s.hole * 2 ≤ n → IsLeastChild s (min_child key node n s)
  unfolding min_child
  min_child-IsLeastChild s pos h = record {
    child = ground arith;
    least =
        λ c p q. let two : (c ≡ s.hole * 2) ⊎ (c ≡ s.hole * 2 + 1) = grind arith in ground arith;
  }

  move-DownInv :
      (s : Sift) (m : ℕ)
      → DownInv s
      → IsLeastChild s m
      → key (s.slots m) ≤ key node
      → DownInv (move m s)
  unfolding move
  move-DownInv s m v l above = record {
    inside = ground (arith, v.inside, l.child);
    edges = λ c p q r. ground (arith, v.edges c, v.bridged m, l.least c, l.child, v.inside);
    bridged = λ c p q r. ground (arith, v.edges c, l.child, v.inside);
  }

  pub sift_down_orders :
      (fuel : ℕ) (s : Sift)
      → n < s.hole + fuel
      → DownInv s
      → IsHeap key (view node (sift_down key node n fuel s)) n
  unfolding sift_down
  sift_down_orders zero s f v = absurd (omega (arith, v.inside))
  sift_down_orders (suc fuel) s f v = elim (Bool-cases (leb (s.hole * 2) n)) [
    | inr leaf ↦ rw leaf (λ c p q. ground (arith, v.edges c, v.inside))
    | inl inner ↦
        let m = min_child key node n s in
        let l = min_child-IsLeastChild s v.inside.0 (ground arith) in
        elim (Bool-cases (ltb (key node) (key (s.slots m)))) [
          | inl stops ↦ rw (inner, stops) (λ c p q. ground (arith, v.edges c, l.least c, v.inside))
          | inr sinks ↦
              rw (inner, sinks)
                (sift_down_orders fuel (move m s) (unfold move in omega (arith, l.child))
                  (move-DownInv s m v l (ground arith)))
        ]
  ]

root_least_below :
    (key slots : ℕ → ℕ) (n k c : ℕ)
    → IsHeap key slots n
    → c < k
    → 1 ≤ c
    → c ≤ n
    → key (slots 1) ≤ key (slots c)
root_least_below key slots n zero c h f p q = absurd (omega arith)
root_least_below key slots n (suc k) c h f p q =
    ground (arith, h c, root_least_below key slots n k (c / 2) h)

-- The root of a heap has the least key.
pub root_least :
    (key slots : ℕ → ℕ) (n c : ℕ)
    → IsHeap key slots n
    → 1 ≤ c
    → c ≤ n
    → key (slots 1) ≤ key (slots c)
root_least key slots n c h p q = root_least_below key slots n (suc c) c h (omega arith) p q
