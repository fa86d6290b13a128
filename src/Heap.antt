-- ===== src/Heap.antt =====
-- src/common/heap.h: HeapBase at kMinHeap, the order of every heap of the program. A node is its
-- address; `items` is the array of node pointers, whose slot 0 is not in use, and `index` and `val`
-- are the two fields of the nodes. The slots behind `num_items` hold nodes for later use. `fresh` is
-- the address that the next `new` gives.
pub mod Moves
pub mod Order
pub mod Adjust
pub mod Ops
pub mod Insert
use libnbf.Prelude.{
  ℕ, zero, suc, ◌+◌, ◌-◌, ◌*◌, ◌/◌, ◌%◌, ◌^◌, ◌≤◌, ◌<◌, ◌≡◌, ◌≢◌, Bool, true, false, ◌&&◌, ◌||◌,
  Option, none, some, ltb, leb, ◌==◌, if◌then◌else◌,
}
use libnbf.Prelude.Memory.{update}

pub record Heap (Val : Type 0) : Type 0 where
  pub items : ℕ → ℕ
  pub index : ℕ → ℕ
  pub val : ℕ → Val
  pub num_items : ℕ
  pub size_container : ℕ
  pub fresh : ℕ
  pub init : Bool

-- The two arrays that a sift writes, and the slot at which it stands.
pub record Sift : Type 0 where
  pub slots : ℕ → ℕ
  pub places : ℕ → ℕ
  pub hole : ℕ

-- heap_items_[hole] = heap_items_[from]; heap_items_[hole]->index = hole; and on to `from`.
unfoldable pub move : ℕ → Sift → Sift
move from s = record {
  slots = update s.slots s.hole (s.slots from);
  places = update s.places (s.slots from) s.hole;
  hole = from;
}

-- The writes of the node to the slot that a sift has found.
unfoldable pub place : ℕ → Sift → Sift
place node s = record {
  slots = update s.slots s.hole node;
  places = update s.places node s.hole;
  hole = s.hole;
}

-- The sifts compare nodes by their keys; `fuel` bounds the rounds.
module _ (key : ℕ → ℕ) (node : ℕ) where
  -- The loop of Insert, and the upward branch of AdjustNode.
  unfoldable pub sift_up : ℕ → Sift → Sift
  sift_up zero s = s
  sift_up (suc fuel) s =
      let rest = sift_up fuel (move (s.hole / 2) s) in
      if ltb 1 s.hole && ltb (key node) (key (s.slots (s.hole / 2))) then rest else s

  -- The child with the lesser key.
  unfoldable pub min_child : ℕ → Sift → ℕ
  min_child num s =
      let iter = s.hole * 2 in
      if iter == num || ltb (key (s.slots iter)) (key (s.slots (iter + 1))) then iter else iter + 1

  -- The downward branch of AdjustNode.
  unfoldable pub sift_down : ℕ → ℕ → Sift → Sift
  sift_down num zero s = s
  sift_down num (suc fuel) s =
      let rest = sift_down num fuel (move (min_child num s) s) in
      if leb (s.hole * 2) num
      then (if ltb (key node) (key (s.slots (min_child num s))) then s else rest)
      else s

-- `orig_size << 1` for `int orig_size = sizeof(Node*) * size_container_`, as the size_t that realloc
-- takes: a negative int is extended to 64 bits.
unfoldable pub resized_bytes : ℕ → ℕ
resized_bytes size =
    let bits = 8 * size % 2 ^ 32 * 2 % 2 ^ 32 in
    if ltb bits (2 ^ 31) then bits else 2 ^ 64 - 2 ^ 32 + bits

module _ {Val : Type 0} where
  abbrev pub sift_at : ℕ → Heap Val → Sift
  sift_at slot h = record { slots = h.items; places = h.index; hole = slot }

  abbrev pub with_sift : Heap Val → Sift → Heap Val
  with_sift h s = record h { items = s.slots; index = s.places }

  -- InitInner: a new node in every slot. The memory of the object is `h`.
  abbrev pub init_inner : ℕ → Heap Val → Bool × Heap Val
  init_inner init_size h = (
    true,
    record h {
      items = λ slot. if ltb slot init_size then h.fresh + slot else 0;
      num_items = 0;
      size_container = init_size;
      fresh = h.fresh + init_size;
      init = true;
    },
  )

  unfoldable pub init_heap : ℕ → Heap Val → Bool × Heap Val
  init_heap init_size h = if h.init then (false, h) else init_inner init_size h

  -- What Resize writes: twice the slots, a new node in each slot of the second half.
  unfoldable pub doubled : Heap Val → Heap Val
  doubled h = record h {
    items = λ slot.
        if leb h.size_container slot && ltb slot (h.size_container * 2)
        then h.fresh + (slot - h.size_container)
        else h.items slot;
    size_container = h.size_container * 2;
    fresh = h.fresh + h.size_container;
  }

  -- Resize. `realloc` says whether a block of so many bytes is given. None is a Resize that gets no
  -- block, or one that is too short for the slots that it writes.
  unfoldable pub resize : (ℕ → Bool) → Heap Val → Option (Heap Val)
  resize realloc h =
      let bytes = resized_bytes h.size_container in
      if realloc bytes && leb (16 * h.size_container) bytes then some (doubled h) else none

  -- The heap that Insert fills: Resize where the container is full.
  unfoldable pub make_room : (ℕ → Bool) → Heap Val → Option (Heap Val)
  make_room realloc h = if (h.num_items + 1) == h.size_container then resize realloc h else some h

  -- Erase before its call of AdjustNode: the node changes places with the last one.
  unfoldable pub swap_out : ℕ → Heap Val → Heap Val
  swap_out sign h =
      let slot = h.index sign in
      let items = update (update h.items slot (h.items h.num_items)) h.num_items sign in
      record h {
        items = items;
        num_items = h.num_items - 1;
        index = update h.index (items slot) slot;
      }

  unfoldable pub top : Heap Val → Option Val
  top h = if h.num_items == 0 then none else some (h.val (h.items 1))

  unfoldable pub clear : Heap Val → Heap Val
  clear h = record h { num_items = 0 }

module _ {Val : Type 0} (feature : Val → ℕ) where
  abbrev pub key_of : Heap Val → ℕ → ℕ
  key_of h node = feature (h.val node)

  unfoldable pub adjust_node : ℕ → Heap Val → Heap Val
  adjust_node slot h =
      let node = h.items slot in
      let up = sift_up (key_of h) node slot (sift_at slot h) in
      let down = sift_down (key_of h) node h.num_items h.num_items (sift_at slot h) in
      if ltb h.num_items slot
      then h
      else if ltb 1 slot && ltb (key_of h node) (key_of h (h.items (slot / 2)))
      then with_sift h (place node up)
      else with_sift h (place node down)

  -- The loop of Insert and the writes behind it; the result is the address of the node.
  unfoldable pub settle : Val → Heap Val → ℕ × Heap Val
  settle v h =
      let slot = h.num_items + 1 in
      let node = h.items slot in
      let grown = record h { num_items = slot; val = update h.val node v } in
      (node, with_sift grown (place node (sift_up (key_of grown) node slot (sift_at slot grown))))

  -- Insert where there is room. `int iter` holds a slot below 2 ^ 31; none is a slot that it does not
  -- hold, for which the writes go elsewhere.
  unfoldable pub insert_at_end : Val → Heap Val → Option (ℕ × Heap Val)
  insert_at_end v h = if ltb (h.num_items + 1) (2 ^ 31) then some (settle v h) else none

  unfoldable pub insert : (ℕ → Bool) → Val → Heap Val → Option (ℕ × Heap Val)
  insert realloc v h = elim (make_room realloc h) [ none ↦ none | some h' ↦ insert_at_end v h' ]

  unfoldable pub update_val : ℕ → Val → Heap Val → Heap Val
  update_val sign v h = adjust_node (h.index sign) (record h { val = update h.val sign v })

  unfoldable pub update_top : Val → Heap Val → Heap Val
  update_top v h =
      if 0 == h.num_items then h else adjust_node 1 (record h { val = update h.val (h.items 1) v })

  unfoldable pub refresh : ℕ → Heap Val → Heap Val
  refresh sign h = adjust_node (h.index sign) h

  unfoldable pub refresh_top : Heap Val → Heap Val
  refresh_top h = adjust_node 1 h

  unfoldable pub erase : ℕ → Heap Val → Heap Val
  erase sign h =
      if h.num_items == 0
      then h
      else (let swapped = swap_out sign h in adjust_node (swapped.index sign) swapped)

  unfoldable pub pop : Heap Val → ℕ × Heap Val
  pop h = (h.items 1, erase (h.items 1) h)
