-- ===== src/Tests/HeapTests.antt =====
-- src/common/heap.h on a heap of numbers that grows once.
use libnbf.Prelude.{ℕ, ◌≡◌, ◌≤◌, ◌↔◌, refl, true, false, some, arith}
use libnbf.Prelude.Memory.{update}
use libnbf.Heap
use libnbf.Heap.{Heap, init_heap, insert, erase, top, update_val}
use libnbf.Heap.Adjust.{Live, IsValid}
use libnbf.Heap.Insert.{Inserted, Inserts, inserted_or, inserted_or-Inserted, insert-Inserted}
use libnbf.Heap.Ops.{Erased, erase-Erased, top_least, update_val_lem, init_heap-IsValid}

abbrev key : ℕ → ℕ
key n = n

abbrev blank : Heap ℕ
blank = record {
  items = λ slot. 0;
  index = λ node. 0;
  val = λ node. 0;
  num_items = 0;
  size_container = 0;
  fresh = 100;
  init = false;
}

abbrev empty : Heap ℕ
empty = (init_heap 2 blank).1

abbrev one : ℕ × Heap ℕ
one = inserted_or (0, empty) (insert key (λ n. true) 9 empty)

-- The container is full here, and grows.
abbrev two : ℕ × Heap ℕ
two = inserted_or (0, empty) (insert key (λ n. true) 5 one.1)

abbrev three : ℕ × Heap ℕ
three = inserted_or (0, empty) (insert key (λ n. true) 7 two.1)

top-three : top three.1 ≡ some 5
unfolding top insert Heap.insert_at_end Heap.make_room init_heap Heap.resize Heap.resized_bytes
    Heap.doubled Heap.settle Heap.place Heap.sift_up Heap.move
top-three = refl

top-erased : top (erase key two.0 three.1) ≡ some 7
unfolding top insert Heap.insert_at_end Heap.make_room init_heap Heap.resize Heap.resized_bytes
    Heap.doubled Heap.settle Heap.place Heap.sift_up Heap.move erase Heap.adjust_node Heap.swap_out
    Heap.sift_down Heap.min_child
top-erased = refl

empty-IsValid : IsValid key empty
empty-IsValid = (init_heap-IsValid key 2 blank refl (omega arith)).1

one-IsValid : IsValid key one.1
unfolding init_heap
one-IsValid =
    (inserted_or-Inserted key 9 empty (0, empty) _
      (insert-Inserted key (λ n. true) 9 empty empty-IsValid (omega arith) refl)).valid

two-Inserted : Inserted key 5 one.1 two
unfolding insert Heap.insert_at_end Heap.make_room init_heap Heap.resize Heap.resized_bytes
    Heap.doubled Heap.settle
two-Inserted =
    inserted_or-Inserted key 5 one.1 (0, empty) _
      (insert-Inserted key (λ n. true) 5 one.1 one-IsValid (omega arith) refl)

three-Inserted : Inserted key 7 two.1 three
unfolding insert Heap.insert_at_end Heap.make_room init_heap Heap.resize Heap.resized_bytes
    Heap.doubled Heap.settle
three-Inserted =
    inserted_or-Inserted key 7 two.1 (0, empty) _
      (insert-Inserted key (λ n. true) 7 two.1 two-Inserted.valid (omega arith) refl)

init_heap_run : let r = init_heap 2 blank in (r.0 ≡ true) × IsValid key r.1 × (r.1.num_items ≡ 0)
init_heap_run = init_heap-IsValid key 2 blank refl (omega arith)

insert-Inserted_example : Inserts key 5 one.1 (insert key (λ n. true) 5 one.1)
unfolding insert Heap.insert_at_end Heap.make_room init_heap Heap.resize Heap.resized_bytes
    Heap.doubled Heap.settle
insert-Inserted_example = insert-Inserted key (λ n. true) 5 one.1 one-IsValid (omega arith) refl

two-Live : Live three.1 two.0
two-Live = (three-Inserted.kept two.0 two-Inserted.live).0

erase-Erased_example : Erased key two.0 three.1 (erase key two.0 three.1)
erase-Erased_example = erase-Erased key three.1 two.0 three-Inserted.valid two-Live

top_least_run :
    (top three.1 ≡ some (three.1.val (three.1.items 1)))
    × (key (three.1.val (three.1.items 1)) ≤ key (three.1.val two.0))
top_least_run = top_least key three.1 two.0 three-Inserted.valid two-Live

update_val_run :
    let h' = update_val key two.0 8 three.1 in
    IsValid key h'
    × ((y : ℕ) → Live three.1 y ↔ Live h' y)
    × (h'.val ≡ update three.1.val two.0 8)
    × (h'.num_items ≡ three.1.num_items)
update_val_run = update_val_lem key three.1 two.0 8 three-Inserted.valid two-Live
