-- ===== src/Timer/Lost.antt =====
-- src/event/timer/timer.cpp: ProcessTimer calls OnTimer before Pop. What a callback does to the run
-- when it deletes its own timer, as AsyncSequence::OnTimer does through Get and CancelTimer.
use libnbf.Prelude.{
  ℕ, zero, suc, ◌≤◌, ◌≡◌, ◌≢◌, refl, ap, true, none, some, arith, if◌then◌else◌, [],
}
use libnbf.Heap
use libnbf.Heap.{Heap}
use libnbf.Heap.Adjust.{Live, IsValid}
use libnbf.Heap.Ops.{erase-Erased, top_least}
use libnbf.Timer.{
  TimerData, get_time_out, is_due, fired, del_timer, process_loop, process_timer, process_coro_loop,
  process_timer_coro,
}
use libnbf.Timer.Fire.{quiet, root-Live}

-- The callback that deletes a timer; `id_of` says which timer a user's number belongs to.
abbrev pub cancelling : (ℕ → ℕ) → TimerData → Heap TimerData → Heap TimerData
cancelling id_of d h = del_timer (id_of d.function_data) h

-- The node at the root after the root has been erased.
abbrev pub next_root : Heap TimerData → ℕ
next_root h = (Heap.erase get_time_out (h.items 1) h).items 1

abbrev pub without_two : Heap TimerData → Heap TimerData
without_two h = Heap.erase get_time_out (next_root h) (Heap.erase get_time_out (h.items 1) h)

-- What the first round of a run does where the callback deletes its own timer: the run goes on with a
-- heap from which the next timer is gone too, and has not called it.
pub record Loses (now fuel : ℕ) (id_of : ℕ → ℕ) (h : Heap TimerData) : Type 0 where
  pub other : next_root h ≢ h.items 1
  pub waiting : Live h (next_root h)
  pub round :
      process_loop now (cancelling id_of) (suc fuel) h
      ≡ fired (h.items 1) (process_loop now (cancelling id_of) fuel (without_two h))
  pub gone : ¬ (Live (without_two h) (next_root h))

cancel-round :
    (now fuel : ℕ) (id_of : ℕ → ℕ) (h : Heap TimerData) (d : TimerData)
    → Heap.top h ≡ some d
    → is_due now d ≡ true
    → id_of d.function_data ≡ h.items 1
    → process_loop now (cancelling id_of) (suc fuel) h
      ≡ fired (h.items 1) (process_loop now (cancelling id_of) fuel (without_two h))
unfolding process_loop Heap.pop del_timer
cancel-round now fuel id_of h d e w own = rw (e, process_loop) (rw (w, own))

-- Where at least two timers wait, the one at the root is due and its callback deletes that same timer,
-- one round of ProcessTimer calls the root's callback and removes the next timer as well, a different
-- one that was waiting in the heap, without calling it.
pub process_loop-Loses :
    (now fuel : ℕ) (id_of : ℕ → ℕ) (h : Heap TimerData)
    → IsValid get_time_out h
    → 2 ≤ h.num_items
    → is_due now (h.val (h.items 1)) ≡ true
    → id_of (h.val (h.items 1)).function_data ≡ h.items 1
    → Loses now fuel id_of h
process_loop-Loses now fuel id_of h v two due own =
    let root = root-Live now h v (omega arith) in
    let one = erase-Erased get_time_out h (h.items 1) v root in
    let next =
      root-Live now (Heap.erase get_time_out (h.items 1) h) one.valid (omega (arith, one.count)) in
    let both = erase-Erased get_time_out _ (next_root h) one.valid next in
    record {
      other = (one.back (next_root h) next).1;
      waiting = (one.back (next_root h) next).0;
      round =
          cancel-round now fuel id_of h (h.val (h.items 1))
            (top_least get_time_out h (h.items 1) v root).0 due own;
      gone = λ l. (both.back (next_root h) l).1 refl;
    }

coro_loop-agrees :
    (now fuel : ℕ) (h : Heap TimerData)
    → process_coro_loop now quiet fuel h ≡ process_loop now quiet fuel h
unfolding process_loop process_coro_loop
coro_loop-agrees now zero h = refl
coro_loop-agrees now (suc fuel) h =
    ap
      (λ rest. elim (Heap.top h) [
        | none ↦ some (record { ids = []; heap = h })
        | some d ↦
            if is_due now d then fired (h.items 1) rest else some (record { ids = []; heap = h })
      ])
      (coro_loop-agrees now fuel (Heap.pop get_time_out h).1)

-- Where the callbacks leave the timers alone, ProcessTimerCoro, which takes the timer out before the
-- callback, does what ProcessTimer does, which takes it out after.
pub process_timer_coro-process_timer :
    (now fuel : ℕ) (h : Heap TimerData)
    → process_timer_coro now quiet fuel h ≡ process_timer now quiet fuel h
unfolding process_timer process_timer_coro
process_timer_coro-process_timer now fuel h = rw (coro_loop-agrees now fuel h) refl
