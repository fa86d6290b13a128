-- ===== src/Timer.antt =====
-- src/event/timer/timer.h and timer.cpp: the timers of an event loop, a heap ordered by the time at
-- which they are due. The clock's reading and the callbacks are arguments; a callback may change the
-- heap, since AddTimer and DelTimer are called from callbacks.
pub mod Fire
pub mod Lost
use libnbf.Prelude.{
  ℕ, zero, suc, ◌+◌, ◌%◌, ◌^◌, Bool, true, false, ◌&&◌, List, [], ◌∷◌, Option, none, some, leb,
  ◌==◌, if◌then◌else◌,
}
use libnbf.Heap
use libnbf.Heap.{Heap}

pub record TimerData : Type 0 where
  pub time_out_ms : ℕ
  pub time_proc : Option ℕ
  pub function_data : ℕ
  pub coro_id : ℕ

-- GetTimeOut, an int64_t: a time of 2 ^ 63 or more is negative and comes before every other. The
-- number stands for the int with 2 ^ 63 added, which keeps the order.
abbrev pub get_time_out : TimerData → ℕ
get_time_out d = (d.time_out_ms + 2 ^ 63) % 2 ^ 64

abbrev pub has_proc : TimerData → Bool
has_proc d = elim d.time_proc [ none ↦ false | some p ↦ true ]

-- The test of the loops: the callback is there and the time has come.
abbrev pub is_due : ℕ → TimerData → Bool
is_due now d = leb d.time_out_ms now && has_proc d

-- AddTimer; none is what Insert's Resize may end in.
unfoldable pub add_timer :
    (ℕ → Bool) → ℕ → ℕ → TimerData → Heap TimerData → Option (ℕ × Heap TimerData)
add_timer realloc now after_ms d h =
    Heap.insert get_time_out realloc (record d { time_out_ms = (now + after_ms) % 2 ^ 64 }) h

unfoldable pub del_timer : ℕ → Heap TimerData → Heap TimerData
del_timer id h = Heap.erase get_time_out id h

-- The ids of the timers whose callbacks a run has called, in order, and the heap that it leaves.
pub record Run : Type 0 where
  pub ids : List ℕ
  pub heap : Heap TimerData

abbrev pub fired : ℕ → Option Run → Option Run
fired id none = none
fired id (some run) = some (record run { ids = id ∷ run.ids })

module _ (now : ℕ) (on_timer : TimerData → Heap TimerData → Heap TimerData) where
  -- The loop of ProcessTimer and ProcessTimerTest: the callback, then Pop. `none` means that the fuel
  -- ran out.
  unfoldable pub process_loop : ℕ → Heap TimerData → Option Run
  process_loop zero h = none
  process_loop (suc fuel) h = elim (Heap.top h) [
    | none ↦ some (record { ids = []; heap = h })
    | some d ↦
        let after = Heap.pop get_time_out (on_timer d h) in
        let rest = fired (h.items 1) (process_loop fuel after.1) in
        if is_due now d then rest else some (record { ids = []; heap = h })
  ]

  unfoldable pub process_timer : ℕ → Heap TimerData → Option Run
  process_timer fuel h =
      if h.num_items == 0 then some (record { ids = []; heap = h }) else process_loop fuel h

  -- The loop of ProcessTimerCoro: Pop, then the callback.
  unfoldable pub process_coro_loop : ℕ → Heap TimerData → Option Run
  process_coro_loop zero h = none
  process_coro_loop (suc fuel) h = elim (Heap.top h) [
    | none ↦ some (record { ids = []; heap = h })
    | some d ↦
        let after = on_timer d (Heap.pop get_time_out h).1 in
        let rest = fired (h.items 1) (process_coro_loop fuel after) in
        if is_due now d then rest else some (record { ids = []; heap = h })
  ]

  unfoldable pub process_timer_coro : ℕ → Heap TimerData → Option Run
  process_timer_coro fuel h =
      if h.num_items == 0 then some (record { ids = []; heap = h }) else process_coro_loop fuel h

unfoldable pub clear : Heap TimerData → Heap TimerData
clear h = Heap.clear h
