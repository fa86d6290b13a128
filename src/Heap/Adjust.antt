-- ===== src/Heap/Adjust.antt =====
-- The invariant of HeapBase, and AdjustNode.
use libnbf.Prelude.{
  ℕ, sym, ◌/◌, ◌≤◌, ◌<◌, ◌≡◌, ◌≢◌, refl, false, ◌&&◌, inl, inr, arith, ltb, leb, ◌==◌, Bool-cases,
}
use libnbf.Heap.{Heap, Sift, place, sift_up, sift_down, key_of, sift_at, with_sift, adjust_node}
use libnbf.Heap.Moves.{Coherent, Tracked, Kept, sift_up-Kept, sift_down-Kept, place-Placed}
use libnbf.Heap.Order.{IsHeap, UpInv, DownInv, sift_up_orders, sift_down_orders, view}

module _ {Val : Type 0} where
  -- The node stands in the array, at its own slot.
  abbrev pub Live : Heap Val → ℕ → Type 0
  Live h x = (1 ≤ h.index x) × (h.index x ≤ h.num_items) × (h.items (h.index x) ≡ x)

  -- The node stands in no slot behind the last.
  abbrev pub NotSpare : Heap Val → ℕ → Type 0
  NotSpare h x = (c : ℕ) → h.num_items < c → c < h.size_container → h.items c ≢ x

  -- Neither spare nor not yet allocated.
  abbrev pub Kin : Heap Val → ℕ → Type 0
  Kin h x = NotSpare h x × (x < h.fresh)

  -- The array without its order: every slot has a node of its own.
  pub record IsSound (h : Heap Val) : Type 0 where
    pub indexed : (c : ℕ) → 1 ≤ c → c ≤ h.num_items → h.index (h.items c) ≡ c
    pub room : h.num_items < h.size_container
    pub apart : (c : ℕ) → 1 ≤ c → c ≤ h.num_items → NotSpare h (h.items c)
    pub spare : (c d : ℕ) → h.num_items < c → c < d → d < h.size_container → h.items c ≢ h.items d
    pub allocated : (c : ℕ) → 1 ≤ c → c < h.size_container → h.items c < h.fresh

  pub live_ne_spare :
      {h : Heap Val} (s : IsSound h) (c d : ℕ)
      → 1 ≤ c
      → c ≤ h.num_items
      → h.num_items < d
      → d < h.size_container
      → h.items c ≢ h.items d
  live_ne_spare s c d lo hi lo' hi' e = s.apart c lo hi d lo' hi' (sym e)

module _ {Val : Type 0} (feature : Val → ℕ) where
  pub record IsValid (h : Heap Val) : Type 0 where
    pub sound : IsSound h
    pub order : IsHeap (key_of feature h) h.items h.num_items

  -- The edges but those at the slot are in order, and so are the edges past it.
  pub record IsOff (slot : ℕ) (h : Heap Val) : Type 0 where
    pub edges :
        (c : ℕ)
        → 1 < c
        → c ≤ h.num_items
        → c ≢ slot
        → c / 2 ≢ slot
        → key_of feature h (h.items (c / 2)) ≤ key_of feature h (h.items c)
    pub bridged :
        (c : ℕ)
        → c ≤ h.num_items
        → c / 2 ≡ slot
        → 1 < slot
        → key_of feature h (h.items (slot / 2)) ≤ key_of feature h (h.items c)

  -- What AdjustNode makes of the two arrays: the order is right, and the same nodes stand there.
  pub record Adjusted (P : ℕ → Type 0) (h : Heap Val) (t : Sift) : Type 0 where
    pub order : IsHeap (key_of feature h) t.slots h.num_items
    pub indexed : (c : ℕ) → 1 ≤ c → c ≤ h.num_items → t.places (t.slots c) ≡ c
    pub members : (c : ℕ) → 1 ≤ c → c ≤ h.num_items → P (t.slots c)
    pub live : (x : ℕ) → Live h x → Live (with_sift h t) x
    pub beyond : (c : ℕ) → h.num_items < c → t.slots c ≡ h.items c

  module _ (P : ℕ → Type 0) (slot : ℕ) (h : Heap Val) (lo : 1 ≤ slot) (hi : slot ≤ h.num_items)
      (indexed : (c : ℕ) → 1 ≤ c → c ≤ h.num_items → h.index (h.items c) ≡ c)
      (members : (c : ℕ) → 1 ≤ c → c ≤ h.num_items → P (h.items c)) where
    start-Coherent : Coherent P h.num_items (h.items slot) (sift_at slot h)
    start-Coherent = record {
      hole_in = (lo, hi);
      indexed = λ c p q r. indexed c p q;
      apart = λ c p q r. ground (arith, indexed c, indexed slot);
      members = λ c p q r. members c p q;
    }

    start-Tracked : (x : ℕ) → Live h x → Tracked x h.num_items (h.items slot) (sift_at slot h)
    start-Tracked x l = elim (Bool-cases (h.index x == slot)) [
      | inl same ↦ inl (ground arith)
      | inr other ↦ inr (ground arith, l.0, l.1, l.2)
    ]

    placed-Adjusted :
        (s : Sift)
        → Kept P h.num_items (h.items slot) (sift_at slot h) s
        → IsHeap (key_of feature h) (view (h.items slot) s) h.num_items
        → Adjusted P h (place (h.items slot) s)
    placed-Adjusted s k order =
        let p =
          place-Placed P h.num_items (h.items slot) (sift_at slot h) s (members slot lo hi) k in
        record {
          order = unfold place in order;
          indexed = p.indexed;
          members = p.members;
          live = λ x l. p.tracked x (start-Tracked x l);
          beyond = p.beyond;
        }

    start-UpInv :
        IsOff slot h
        → 1 < slot
        → key_of feature h (h.items slot) < key_of feature h (h.items (slot / 2))
        → UpInv (key_of feature h) h.num_items (h.items slot) (sift_at slot h)
    start-UpInv off up below = record {
      inside = (lo, hi);
      edges = λ c p q r. ground (arith, off.edges c, off.bridged c);
      bridged = λ c p q r. ground (arith, off.bridged c);
    }

    start-DownInv :
        IsOff slot h
        → (1 < slot → key_of feature h (h.items (slot / 2)) ≤ key_of feature h (h.items slot))
        → DownInv (key_of feature h) h.num_items (h.items slot) (sift_at slot h)
    start-DownInv off above = record {
      inside = (lo, hi);
      edges = λ c p q r. ground (arith, off.edges c, above);
      bridged = λ c p q r. ground (arith, off.bridged c);
    }

    -- AdjustNode at a slot whose edges alone may be out of order restores the heap.
    pub adjust_node-Adjusted :
        IsOff slot h → (t : Sift) × (adjust_node feature slot h ≡ with_sift h t) × Adjusted P h t
    unfolding adjust_node
    adjust_node-Adjusted off =
        let key = key_of feature h in
        let inside : ltb h.num_items slot ≡ false = ground arith in
        elim (Bool-cases (ltb 1 slot && ltb (key (h.items slot)) (key (h.items (slot / 2))))) [
          | inl up ↦ (
            _,
            rw (inside, up),
            placed-Adjusted (sift_up key (h.items slot) slot (sift_at slot h))
                (sift_up-Kept P h.num_items key (h.items slot) slot (sift_at slot h) start-Coherent)
                (sift_up_orders key h.num_items (h.items slot) slot (sift_at slot h) (omega arith)
                  (start-UpInv off (ground arith) (ground arith))),
          )
          | inr down ↦ (
            _,
            rw (inside, down),
            placed-Adjusted (sift_down key (h.items slot) h.num_items h.num_items (sift_at slot h))
                (sift_down-Kept P h.num_items key (h.items slot) h.num_items (sift_at slot h)
                  start-Coherent)
                (sift_down_orders key h.num_items (h.items slot) h.num_items (sift_at slot h)
                  (omega arith) (start-DownInv off (λ q. ground arith))),
          )
        ]

  -- A sound heap is valid once it is adjusted.
  pub Adjusted-IsValid :
      (h : Heap Val) (t : Sift) → IsSound h → Adjusted (Kin h) h t → IsValid (with_sift h t)
  Adjusted-IsValid h t s a = record {
    sound = record {
      indexed = a.indexed;
      room = s.room;
      apart = λ c p q d lo hi. rw (a.beyond d lo) ((a.members c p q).0 d lo hi);
      spare = λ c d lo lt hi. ground (arith, a.beyond c, a.beyond d, s.spare c d);
      allocated = λ c p q. elim (Bool-cases (leb c h.num_items)) [
        | inl low ↦ (a.members c p (ground arith)).1
        | inr high ↦ ground (arith, a.beyond c, s.allocated c)
      ];
    };
    order = a.order;
  }

  Sound-Kin : (h : Heap Val) → IsSound h → (c : ℕ) → 1 ≤ c → c ≤ h.num_items → Kin h (h.items c)
  Sound-Kin h s c p q = (s.apart c p q, s.allocated c p (omega (arith, s.room)))

  -- What an operation that changes no membership leaves: a valid heap of the same nodes.
  pub record SameNodes (h h' : Heap Val) : Type 0 where
    pub valid : IsValid h'
    pub live : (x : ℕ) → Live h x → Live h' x
    pub back : (x : ℕ) → Live h' x → Live h x
    pub vals : h'.val ≡ h.val
    pub count : h'.num_items ≡ h.num_items

  -- AdjustNode on a sound heap whose edges at one slot alone may be out of order.
  pub adjust_node_lem :
      (slot : ℕ) (h : Heap Val)
      → 1 ≤ slot
      → slot ≤ h.num_items
      → IsSound h
      → IsOff slot h
      → SameNodes h (adjust_node feature slot h)
  adjust_node_lem slot h lo hi s off =
      let (t, e, a) =
        adjust_node-Adjusted (λ x. Kin h x × Live h x) slot h lo hi s.indexed
          (λ c p q. (Sound-Kin h s c p q, ground (arith, s.indexed c))) off in
      rw e (record {
        valid = Adjusted-IsValid h t s (record {
          order = a.order;
          indexed = a.indexed;
          members = λ c p q. (a.members c p q).0;
          live = a.live;
          beyond = a.beyond;
        });
        live = a.live;
        back = λ x l. rw l.2 at ((a.members (t.places x) l.0 l.1).1);
        vals = refl;
        count = refl;
      })
