-- ===== src/Heap/Insert.antt =====
-- Insert, with the Resize before it.
use libnbf.Prelude.{
  ℕ, ◌+◌, ◌*◌, ◌^◌, Bool, true, Option, none, some, ltb, ◌/◌, ◌≤◌, ◌<◌, ◌≡◌, ◌≢◌, refl, ◌∙◌, ◌⊎◌,
  inl, inr, arith, leb, ◌==◌, Bool-cases, ap,
}
use libnbf.Prelude.Memory.{update}
use libnbf.Heap.{
  Heap, Sift, key_of, sift_at, insert, settle, insert_at_end, make_room, resized_bytes, doubled,
  resize, sift_up, place,
}
use libnbf.Heap.Moves.{Coherent, Tracked, sift_up-Kept, place-Placed}
use libnbf.Heap.Order.{UpInv, sift_up_orders}
use libnbf.Heap.Adjust.{live_ne_spare, Live, IsSound, IsValid, Kin}

-- The result of an Insert that has one.
abbrev pub inserted_or : {Val : Type 0} → ℕ × Heap Val → Option (ℕ × Heap Val) → ℕ × Heap Val
inserted_or r none = r
inserted_or r (some s) = s

module _ {Val : Type 0} (feature : Val → ℕ) where
  doubled-IsSound :
      (h : Heap Val) → IsSound h → h.num_items + 1 ≡ h.size_container → IsSound (doubled h)
  unfolding doubled
  doubled-IsSound h s full = record {
    indexed = λ c p q. ground (arith, s.indexed c);
    room = omega (arith, s.room);
    apart = λ c p q d lo hi. ground (arith, s.allocated c, live_ne_spare s c d);
    spare = λ c d lo lt hi. ground (arith, s.allocated c, s.spare c d);
    allocated = λ c p q. ground (arith, s.allocated c);
  }

  -- What Resize, or its omission, leaves: a valid heap of the same nodes, with a slot to spare.
  record Roomy (h h' : Heap Val) : Type 0 where
    valid : IsValid feature h'
    live : (x : ℕ) → Live h x → Live h' x
    back : (x : ℕ) → Live h' x → Live h x
    vals : h'.val ≡ h.val
    count : h'.num_items ≡ h.num_items
    slot : h'.num_items + 1 < h'.size_container

  doubled-Roomy :
      (h : Heap Val) → IsValid feature h → h.num_items + 1 ≡ h.size_container → Roomy h (doubled h)
  doubled-Roomy h v full = record {
    valid = record {
      sound = doubled-IsSound h v.sound full;
      order = unfold doubled in λ c p q. ground (arith, v.order c);
    };
    live = unfold doubled in λ x l. ground arith;
    back = unfold doubled in λ x l. ground arith;
    vals = unfold doubled in refl;
    count = unfold doubled in refl;
    slot = unfold doubled in ground arith;
  }

  -- Below 2 ^ 27 slots the int holds the size of the block, and Resize has room for what it writes.
  resize-doubled :
      (realloc : ℕ → Bool) (h : Heap Val)
      → h.size_container < 2 ^ 27
      → realloc (16 * h.size_container) ≡ true
      → resize realloc h ≡ some (doubled h)
  unfolding resize resized_bytes
  resize-doubled realloc h small given =
      let plain : resized_bytes h.size_container ≡ 16 * h.size_container = ground arith in
      let fits : leb (16 * h.size_container) (16 * h.size_container) ≡ true = ground arith in
      rw (plain, given, fits) refl

  make_room-Roomy :
      (realloc : ℕ → Bool) (h : Heap Val)
      → IsValid feature h
      → h.size_container < 2 ^ 27
      → realloc (16 * h.size_container) ≡ true
      → (h' : Heap Val) × (make_room realloc h ≡ some h') × Roomy h h'
  unfolding make_room
  make_room-Roomy realloc h v small given =
      elim (Bool-cases ((h.num_items + 1) == h.size_container)) [
        | inl full ↦ (
          doubled h,
          rw full (resize-doubled realloc h small given),
          doubled-Roomy h v (ground arith),
        )
        | inr free ↦ (
          h,
          rw free refl,
          record {
            valid = v;
            live = λ x l. l;
            back = λ x l. l;
            vals = refl;
            count = refl;
            slot = ground (arith, v.sound.room);
          },
        )
      ]

  -- What Insert leaves: a valid heap with one node more, which holds the value; the other nodes are
  -- in the array as before, with their values.
  pub record Inserted (v : Val) (h : Heap Val) (r : ℕ × Heap Val) : Type 0 where
    pub valid : IsValid feature r.1
    pub new : ¬ (Live h r.0)
    pub live : Live r.1 r.0
    pub value : r.1.val r.0 ≡ v
    pub kept : (y : ℕ) → Live h y → Live r.1 y × (r.1.val y ≡ h.val y)
    pub back : (y : ℕ) → Live r.1 y → (y ≡ r.0) ⊎ Live h y
    pub count : r.1.num_items ≡ h.num_items + 1

  module _ (v : Val) (h : Heap Val) (w : IsValid feature h)
      (slot : h.num_items + 1 < h.size_container) where
    abbrev node : ℕ
    node = h.items (h.num_items + 1)

    abbrev grown : Heap Val
    grown = record h { num_items = h.num_items + 1; val = update h.val node v }

    abbrev start : Sift
    start = sift_at (h.num_items + 1) grown

    -- Not spare, allocated, and the new node or one from before.
    abbrev Fine : ℕ → Type 0
    Fine x = Kin grown x × ((x ≡ node) ⊎ Live h x)

    not_spare : (c : ℕ) → 1 ≤ c → c ≤ h.num_items + 1 → Fine (h.items c)
    not_spare c p q = (
      (
        λ d lo hi. ground (arith, w.sound.spare c d, live_ne_spare w.sound c d),
        w.sound.allocated c p (omega arith),
      ),
      ground (arith, w.sound.indexed c),
    )

    start-Coherent : Coherent Fine (h.num_items + 1) node start
    start-Coherent = record {
      hole_in = (omega arith, omega arith);
      indexed = λ c p q r. w.sound.indexed c p (omega arith);
      apart =
          λ c p q r. live_ne_spare w.sound c (h.num_items + 1) p (omega arith) (omega arith) slot;
      members = λ c p q r. not_spare c p q;
    }

    start-UpInv : UpInv (key_of feature grown) (h.num_items + 1) node start
    start-UpInv = record {
      inside = (omega arith, omega arith);
      edges = λ c p q r. ground (
        arith,
        w.order c,
        live_ne_spare w.sound c (h.num_items + 1),
        live_ne_spare w.sound (c / 2) (h.num_items + 1),
      );
      bridged = λ c p q r. absurd (omega arith);
    }

    new_node : ¬ (Live h node)
    new_node l = ground (arith, live_ne_spare w.sound (h.index node) (h.num_items + 1))

    old_node : (y : ℕ) → Live h y → y ≢ node
    old_node y l e = new_node (rw e at l)

    start-Tracked : (y : ℕ) → Live h y → Tracked y (h.num_items + 1) node start
    start-Tracked y l = inr (omega (arith, l), l.0, omega (arith, l), l.2)

    settle-Inserted : Inserted v h (settle feature v h)
    unfolding settle
    settle-Inserted =
        let key = key_of feature grown in
        let n = h.num_items + 1 in
        let k = sift_up-Kept Fine n key node n start start-Coherent in
        let s = sift_up key node n start in
        let t = place node s in
        let p = place-Placed Fine n node start s (not_spare n (omega arith) (omega arith)) k in
        record {
          valid = record {
            sound = record {
              indexed = p.indexed;
              room = slot;
              apart = λ c lo hi d lo' hi'. rw (p.beyond d lo') ((p.members c lo hi).0.0 d lo' hi');
              spare = λ c d lo lt hi. ground (arith, p.beyond c, p.beyond d, w.sound.spare c d);
              allocated = λ c lo hi. elim (Bool-cases (leb c n)) [
                | inl low ↦ (p.members c lo (ground arith)).0.1
                | inr high ↦ ground (arith, p.beyond c, w.sound.allocated c)
              ];
            };
            order = unfold place in sift_up_orders key n node n start (omega arith) start-UpInv;
          };
          new = λ l. new_node l;
          live = p.tracked node (inl refl);
          value = ground arith;
          kept = λ y l. (p.tracked y (start-Tracked y l), ground (arith, old_node y));
          back = λ y l. rw l.2 at ((p.members (t.places y) l.0 l.1).1);
          count = refl;
        }

  -- What an Insert of `v` into `h` comes to: a result, which is `Inserted`.
  abbrev pub Inserts : Val → Heap Val → Option (ℕ × Heap Val) → Type 0
  Inserts v h o = (r : ℕ × Heap Val) × (o ≡ some r) × Inserted v h r

  Roomy-Inserted :
      (v : Val) (h h' : Heap Val)
      → Roomy h h'
      → Inserted v h' (settle feature v h')
      → Inserted v h (settle feature v h')
  Roomy-Inserted v h h' r i = record {
    valid = i.valid;
    new = λ l. i.new (r.live _ l);
    live = i.live;
    value = i.value;
    kept = λ y l. ((i.kept y (r.live y l)).0, (i.kept y (r.live y l)).1 ∙ ap (λ f. f y) r.vals);
    back = λ y l. back_of y (i.back y l);
    count = i.count ∙ ap (λ n. n + 1) r.count;
  }
    where
      back_of :
          (y : ℕ)
          → (y ≡ (settle feature v h').0) ⊎ Live h' y
          → (y ≡ (settle feature v h').0) ⊎ Live h y
      back_of y (inl e) = inl e
      back_of y (inr l) = inr (r.back y l)

  -- Insert into a valid heap of fewer than 2 ^ 27 slots, with a realloc that gives the block that
  -- Resize asks for, returns a valid heap with one node more, which holds the value; no other node or
  -- value changes. This holds with and without a Resize.
  pub insert-Inserted :
      (realloc : ℕ → Bool) (v : Val) (h : Heap Val)
      → IsValid feature h
      → h.size_container < 2 ^ 27
      → realloc (16 * h.size_container) ≡ true
      → Inserts v h (insert feature realloc v h)
  unfolding insert insert_at_end
  insert-Inserted realloc v h w small given =
      let made = make_room-Roomy realloc h w small given in
      let r = made.2 in
      let few : ltb (made.0.num_items + 1) (2 ^ 31) ≡ true =
        ground (arith, r.count, w.sound.room) in
      let i = settle-Inserted v made.0 r.valid r.slot in
      (settle feature v made.0, rw (made.1, insert) (rw few refl), Roomy-Inserted v h made.0 r i)

  pub inserted_or-Inserted :
      (v : Val) (h : Heap Val) (d : ℕ × Heap Val) (o : Option (ℕ × Heap Val))
      → Inserts v h o
      → Inserted v h (inserted_or d o)
  inserted_or-Inserted v h d o i = rw i.1 i.2
