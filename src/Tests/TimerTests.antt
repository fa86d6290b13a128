-- ===== src/Tests/TimerTests.antt =====
-- src/event/timer/timer.cpp on a run with two timers.
use libnbf.Prelude.{ℕ, ◌≡◌, refl, true, false, some, arith, [], ◌∷◌}
use libnbf.Heap
use libnbf.Heap.{Heap, init_heap, insert}
use libnbf.Heap.Insert.{Inserted, inserted_or, inserted_or-Inserted, insert-Inserted}
use libnbf.Heap.Ops.{init_heap-IsValid}
use libnbf.Timer.{
  TimerData, get_time_out, has_proc, process_timer, process_timer_coro, process_loop, Run,
}
use libnbf.Timer.Fire.{quiet, AllProcs, AllTimes, Fires, process_timer-Fires}
use libnbf.Timer.Lost.{
  cancelling, without_two, Loses, process_loop-Loses, process_timer_coro-process_timer,
}

abbrev timer : ℕ → TimerData
timer due = record { time_out_ms = due; time_proc = some 1; function_data = due; coro_id = 0 }

abbrev blank : Heap TimerData
blank = record {
  items = λ slot. 0;
  index = λ node. 0;
  val = λ node. timer 0;
  num_items = 0;
  size_container = 0;
  fresh = 100;
  init = false;
}

abbrev empty : Heap TimerData
empty = (init_heap 4 blank).1

abbrev one : ℕ × Heap TimerData
one = inserted_or (0, empty) (insert get_time_out (λ n. true) (timer 20) empty)

abbrev two : ℕ × Heap TimerData
two = inserted_or (0, empty) (insert get_time_out (λ n. true) (timer 10) one.1)

one-Inserted : Inserted get_time_out (timer 20) empty one
unfolding init_heap
one-Inserted =
    inserted_or-Inserted get_time_out (timer 20) empty (0, empty) _
      (insert-Inserted get_time_out (λ n. true) (timer 20) empty
        (init_heap-IsValid get_time_out 4 blank refl (omega arith)).1 (omega arith) refl)

two-Inserted : Inserted get_time_out (timer 10) one.1 two
unfolding insert Heap.insert_at_end Heap.make_room init_heap Heap.settle
two-Inserted =
    inserted_or-Inserted get_time_out (timer 10) one.1 (0, empty) _
      (insert-Inserted get_time_out (λ n. true) (timer 10) one.1 one-Inserted.valid (omega arith)
        refl)

two-AllProcs : AllProcs two.1
unfolding insert Heap.insert_at_end Heap.make_room init_heap Heap.settle Heap.place Heap.sift_up
two-AllProcs y l = ground arith

two-AllTimes : AllTimes two.1
unfolding insert Heap.insert_at_end Heap.make_room init_heap Heap.settle Heap.place Heap.sift_up
two-AllTimes y l = ground arith

process_timer-Fires_example : Fires 15 two.1 (process_timer 15 quiet 3 two.1)
unfolding insert Heap.insert_at_end Heap.make_room init_heap Heap.settle
process_timer-Fires_example =
    process_timer-Fires 15 3 two.1 (omega arith) two-Inserted.valid two-AllProcs two-AllTimes

-- The callback of the timer that is due at 10 deletes that timer.
process_loop-Loses_example : Loses 15 2 (λ x. two.0) two.1
unfolding Heap.top insert Heap.insert_at_end Heap.make_room init_heap Heap.resize Heap.settle
    Heap.place Heap.sift_up Heap.move
process_loop-Loses_example =
    process_loop-Loses 15 2 (λ x. two.0) two.1 two-Inserted.valid (omega arith) refl refl

-- The timer that is due at 20 is gone at 15.
timer_lost :
    process_timer 15 (cancelling (λ x. two.0)) 3 two.1
    ≡ some (record { ids = two.0 ∷ []; heap = without_two two.1 })
unfolding process_timer insert Heap.insert_at_end Heap.make_room init_heap Heap.settle process_loop
    Heap.top Heap.place Heap.sift_up Heap.move Heap.pop Heap.erase libnbf.Timer.del_timer
    Heap.adjust_node Heap.swap_out Heap.sift_down
timer_lost = refl

process_timer_coro_run : process_timer_coro 15 quiet 3 two.1 ≡ process_timer 15 quiet 3 two.1
process_timer_coro_run = process_timer_coro-process_timer 15 3 two.1
