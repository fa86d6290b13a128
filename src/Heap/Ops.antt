-- ===== src/Heap/Ops.antt =====
-- The operations of HeapBase keep the invariant; what each does to the nodes in the array.
use libnbf.Prelude.{
  ℕ, ◌/◌, ◌↔◌, ◌+◌, ◌-◌, ◌≤◌, ◌≡◌, ◌≢◌, refl, true, false, inl, inr, arith, ltb, ◌==◌, Bool-cases,
  some, ap,
}
use libnbf.Prelude.Memory.{update}
use libnbf.Heap.{Heap, key_of, adjust_node, swap_out, erase, top, update_val, init_heap}
use libnbf.Heap.Order.{root_least}
use libnbf.Heap.Adjust.{live_ne_spare, Live, IsSound, IsValid, IsOff, adjust_node_lem}

module _ {Val : Type 0} (feature : Val → ℕ) where
  -- Erase before AdjustNode, at a node in the array.
  swap_out-IsSound : (h : Heap Val) (x : ℕ) → IsSound h → Live h x → IsSound (swap_out x h)
  unfolding swap_out
  swap_out-IsSound h x s l = record {
    indexed = λ c p q. ground (arith, s.indexed c, s.indexed h.num_items);
    room = omega (arith, s.room);
    apart = λ c p q d lo hi. ground (
      arith,
      s.indexed c,
      s.indexed h.num_items,
      live_ne_spare s c d,
      live_ne_spare s h.num_items d,
      s.room,
    );
    spare = λ c d lo lt hi. ground (arith, live_ne_spare s (h.index x) d, s.spare c d);
    allocated = λ c p q.
        ground (arith, s.allocated c, s.allocated h.num_items, s.allocated (h.index x), s.room);
  }

  -- The order after the exchange, but for the edges at the slot of the node that came in.
  swap_out-IsOff :
      (h : Heap Val) (x : ℕ)
      → IsValid feature h
      → Live h x
      → IsOff feature (h.index x) (swap_out x h)
  unfolding swap_out
  swap_out-IsOff h x v l = record {
    edges = λ c p q r t. ground (arith, v.order c);
    bridged = λ c p q r. ground (arith, v.order c, v.order (h.index x));
  }

  swap_out-index :
      (h : Heap Val) (x : ℕ) → IsSound h → Live h x → (swap_out x h).index x ≡ h.index x
  unfolding swap_out
  swap_out-index h x s l = ground (arith, s.indexed h.num_items)

  swap_out-Live :
      (h : Heap Val) (x y : ℕ) → IsSound h → Live h x → y ≢ x → Live h y → Live (swap_out x h) y
  unfolding swap_out
  swap_out-Live h x y s l ne m = ground (arith, s.indexed h.num_items)

  swap_out-back :
      (h : Heap Val) (x y : ℕ) → IsSound h → Live h x → Live (swap_out x h) y → Live h y × (y ≢ x)
  unfolding swap_out
  swap_out-back h x y s l m = ground (arith, s.indexed h.num_items, s.indexed (h.index y))

  -- What Erase of a node leaves: a valid heap of exactly the other nodes, with their values.
  pub record Erased (x : ℕ) (h h' : Heap Val) : Type 0 where
    pub valid : IsValid feature h'
    pub kept : (y : ℕ) → y ≢ x → Live h y → Live h' y
    pub back : (y : ℕ) → Live h' y → Live h y × (y ≢ x)
    pub vals : h'.val ≡ h.val
    pub count : h'.num_items + 1 ≡ h.num_items

  erase-adjusts :
      (h : Heap Val) (x : ℕ)
      → IsSound h
      → Live h x
      → erase feature x h ≡ adjust_node feature (h.index x) (swap_out x h)
  unfolding erase
  erase-adjusts h x s l =
      let some_left : (h.num_items == 0) ≡ false = ground arith in
      rw some_left (ap (λ i. adjust_node feature i (swap_out x h)) (swap_out-index h x s l))

  erase-last :
      (h : Heap Val) (x : ℕ)
      → Live h x
      → h.index x ≡ h.num_items
      → adjust_node feature (h.index x) (swap_out x h) ≡ swap_out x h
  unfolding adjust_node swap_out
  erase-last h x l last =
      let past : ltb (h.num_items - 1) (h.index x) ≡ true = ground arith in rw past

  -- Erase of a node in the array leaves a valid heap of exactly the other nodes.
  pub erase-Erased :
      (h : Heap Val) (x : ℕ) → IsValid feature h → Live h x → Erased x h (erase feature x h)
  unfolding swap_out
  erase-Erased h x v l =
      rw (erase-adjusts h x v.sound l) (elim (Bool-cases (h.index x == h.num_items)) [
        | inl last ↦
            let off = swap_out-IsOff h x v l in
            rw (erase-last h x l (ground arith)) (record {
              valid = record {
                sound = swap_out-IsSound h x v.sound l;
                order = λ c p q. off.edges c p q (ground arith) (ground arith);
              };
              kept = λ y ne m. swap_out-Live h x y v.sound l ne m;
              back = λ y m. swap_out-back h x y v.sound l m;
              vals = refl;
              count = omega arith;
            })
        | inr inner ↦
            let a =
              adjust_node_lem feature (h.index x) (swap_out x h) l.0 (ground arith)
                (swap_out-IsSound h x v.sound l) (swap_out-IsOff h x v l) in
            record {
              valid = a.valid;
              kept = λ y ne m. a.live y (swap_out-Live h x y v.sound l ne m);
              back = λ y m. swap_out-back h x y v.sound l (a.back y m);
              vals = a.vals;
              count = omega (arith, a.count);
            }
      ])

  -- The node that Pop returns and erases is the one that Top reads, and no node's key is below its.
  pub top_least :
      (h : Heap Val) (y : ℕ)
      → IsValid feature h
      → Live h y
      → (top h ≡ some (h.val (h.items 1))) × (key_of feature h (h.items 1) ≤ key_of feature h y)
  unfolding top
  top_least h y v l =
      let some_left : (h.num_items == 0) ≡ false = ground arith in
      (
        rw some_left,
        rw l.2 at (root_least (key_of feature h) h.items h.num_items (h.index y) v.order l.0 l.1),
      )

  val-IsSound : (h : Heap Val) (f : ℕ → Val) → IsSound h → IsSound (record h { val = f })
  val-IsSound h f s = record {
    indexed = s.indexed;
    room = s.room;
    apart = s.apart;
    spare = s.spare;
    allocated = s.allocated;
  }

  -- Update of a node in the array gives a valid heap of the same nodes, in which the node holds the
  -- new value and the others hold their old ones.
  pub update_val_lem :
      (h : Heap Val) (x : ℕ) (v : Val)
      → IsValid feature h
      → Live h x
      → let h' = update_val feature x v h in
        IsValid feature h'
        × ((y : ℕ) → Live h y ↔ Live h' y)
        × (h'.val ≡ update h.val x v)
        × (h'.num_items ≡ h.num_items)
  unfolding update_val
  update_val_lem h x v w l =
      let a =
        adjust_node_lem feature (h.index x) (record h { val = update h.val x v }) l.0 l.1
          (val-IsSound h (update h.val x v) w.sound)
          (record {
            edges =
                λ c p q r t. ground (arith, w.order c, w.sound.indexed c, w.sound.indexed (c / 2));
            bridged = λ c p q r. ground (
              arith,
              w.order c,
              w.order (h.index x),
              w.sound.indexed c,
              w.sound.indexed (h.index x / 2),
            );
          }) in
      (a.valid, (λ y. (a.live y, a.back y)), a.vals, a.count)

  -- InitHeap on a heap that is not initialised, with at least one slot, makes a valid empty heap.
  pub init_heap-IsValid :
      (size : ℕ) (h : Heap Val)
      → h.init ≡ false
      → 1 ≤ size
      → let r = init_heap size h in (r.0 ≡ true) × IsValid feature r.1 × (r.1.num_items ≡ 0)
  unfolding init_heap
  init_heap-IsValid size h e pos = rw e (
    refl,
    record {
      sound = record {
        indexed = λ c p q. absurd (omega arith);
        room = pos;
        apart = λ c p q. absurd (omega arith);
        spare = λ c d lo lt hi. ground arith;
        allocated = λ c p q. ground arith;
      };
      order = λ c p q. absurd (omega arith);
    },
    refl,
  )
