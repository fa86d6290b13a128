-- ===== src/Timer/Fire.antt =====
-- What ProcessTimer does where the callbacks leave the heap alone.
use libnbf.Prelude.{
  ℕ, zero, suc, ◌+◌, ◌^◌, ◌≤◌, ◌<◌, ◌≡◌, ◌≢◌, refl, ◌∙◌, ap, true, false, [], ◌∷◌, Option, none,
  some, arith, leb, ◌==◌, Bool-cases, inl, inr, length,
}
use libnbf.Prelude.{In}
use libnbf.Heap
use libnbf.Heap.{Heap}
use libnbf.Heap.Adjust.{Live, IsValid}
use libnbf.Heap.Ops.{Erased, erase-Erased, top_least}
use libnbf.Timer.{
  TimerData, get_time_out, has_proc, is_due, Run, fired, process_loop, process_timer,
}

-- The callbacks that leave the timers alone.
abbrev pub quiet : TimerData → Heap TimerData → Heap TimerData
quiet d h = h

-- Every timer that is in the heap has a callback.
abbrev pub AllProcs : Heap TimerData → Type 0
AllProcs h = (y : ℕ) → Live h y → has_proc (h.val y) ≡ true

-- Every timer that is in the heap has a time that is no negative int64_t.
abbrev pub AllTimes : Heap TimerData → Type 0
AllTimes h = (y : ℕ) → Live h y → (h.val y).time_out_ms < 2 ^ 63

-- What a run does at time `now`: it calls exactly the timers that are due, each of them once, and
-- leaves exactly the others.
pub record Fires (now : ℕ) (h : Heap TimerData) (r : Option Run) : Type 0 where
  pub run : Run
  pub ends : r ≡ some run
  pub valid : IsValid get_time_out run.heap
  pub due : (y : ℕ) → Live h y → (h.val y).time_out_ms ≤ now → In y run.ids
  pub called : (y : ℕ) → In y run.ids → Live h y × ((h.val y).time_out_ms ≤ now)
  pub later : (y : ℕ) → Live h y → now < (h.val y).time_out_ms → Live run.heap y
  pub left : (y : ℕ) → Live run.heap y → Live h y × (now < (h.val y).time_out_ms)
  pub vals : run.heap.val ≡ h.val
  pub count : length run.ids + run.heap.num_items ≡ h.num_items

module _ (now : ℕ) where
  loop-stops :
      (fuel : ℕ) (h : Heap TimerData)
      → Heap.top h ≡ none
      → process_loop now quiet (suc fuel) h ≡ some (record { ids = []; heap = h })
  unfolding process_loop
  loop-stops fuel h e = rw (e, process_loop)

  loop-waits :
      (fuel : ℕ) (h : Heap TimerData) (d : TimerData)
      → Heap.top h ≡ some d
      → is_due now d ≡ false
      → process_loop now quiet (suc fuel) h ≡ some (record { ids = []; heap = h })
  unfolding process_loop
  loop-waits fuel h d e w = rw (e, process_loop) (rw w)

  loop-fires :
      (fuel : ℕ) (h : Heap TimerData) (d : TimerData)
      → Heap.top h ≡ some d
      → is_due now d ≡ true
      → process_loop now quiet (suc fuel) h
        ≡ fired (h.items 1) (process_loop now quiet fuel (Heap.erase get_time_out (h.items 1) h))
  unfolding process_loop Heap.pop
  loop-fires fuel h d e w = rw (e, process_loop) (rw w)

  pub root-Live :
      (h : Heap TimerData) → IsValid get_time_out h → 1 ≤ h.num_items → Live h (h.items 1)
  root-Live h v pos = ground (arith, v.sound.indexed 1)

  none-Live : (h : Heap TimerData) (y : ℕ) → h.num_items ≡ 0 → ¬ (Live h y)
  none-Live h y e l = omega (arith, l)

  top-empty : (h : Heap TimerData) → h.num_items ≡ 0 → Heap.top h ≡ none
  unfolding Heap.top
  top-empty h e = ground arith

  idle-Fires :
      (h : Heap TimerData) (r : Option Run)
      → r ≡ some (record { ids = []; heap = h })
      → IsValid get_time_out h
      → ((y : ℕ) → Live h y → now < (h.val y).time_out_ms)
      → Fires now h r
  idle-Fires h r e v later = record {
    run = record { ids = []; heap = h };
    ends = e;
    valid = v;
    due = λ y l d. absurd (omega (arith, later y l));
    called = λ y i. absurd i;
    later = λ y l d. l;
    left = λ y l. (l, later y l);
    vals = refl;
    count = omega arith;
  }

  -- One round that calls the timer at the root, and the rest of the run.
  fired-Fires :
      (h : Heap TimerData) (r : Option Run)
      → Live h (h.items 1)
      → (h.val (h.items 1)).time_out_ms ≤ now
      → Erased get_time_out (h.items 1) h (Heap.erase get_time_out (h.items 1) h)
      → Fires now (Heap.erase get_time_out (h.items 1) h) r
      → Fires now h (fired (h.items 1) r)
  fired-Fires h r live due e f = record {
    run = record { ids = h.items 1 ∷ f.run.ids; heap = f.run.heap };
    ends = ap (fired (h.items 1)) f.ends;
    valid = f.valid;
    due = λ y l d. elim (Bool-cases (y == h.items 1)) [
      | inl root ↦ inl (ground arith)
      | inr other ↦ inr (f.due y (e.kept y (ground arith) l) (same_val y d))
    ];
    called = λ y i. called_of y i;
    later = λ y l d. f.later y (e.kept y (not_due y d) l) (rw e.vals d);
    left = λ y l. ((e.back y (f.left y l).0).0, rw e.vals at ((f.left y l).1));
    vals = f.vals ∙ e.vals;
    count = omega (arith, f.count, e.count);
  }
    where
      same_val :
          (y : ℕ)
          → (h.val y).time_out_ms ≤ now
          → ((Heap.erase get_time_out (h.items 1) h).val y).time_out_ms ≤ now
      same_val y d = rw e.vals d

      not_due : (y : ℕ) → now < (h.val y).time_out_ms → y ≢ h.items 1
      not_due y d root = omega (arith, ap (λ t. (h.val t).time_out_ms) root)

      called_of : (y : ℕ) → In y (h.items 1 ∷ f.run.ids) → Live h y × ((h.val y).time_out_ms ≤ now)
      called_of y (inl root) = rw root (live, due)
      called_of y (inr i) = ((e.back y (f.called y i).0).0, rw e.vals at ((f.called y i).1))

  pub process_loop-Fires :
      (fuel : ℕ) (h : Heap TimerData)
      → h.num_items < fuel
      → IsValid get_time_out h
      → AllProcs h
      → AllTimes h
      → Fires now h (process_loop now quiet fuel h)
  process_loop-Fires zero h f v procs times = absurd (omega arith)
  process_loop-Fires (suc fuel) h f v procs times = elim (Bool-cases (h.num_items == 0)) [
    | inl none_left ↦
        idle-Fires h _ (loop-stops fuel h (top-empty h (ground arith))) v
          (λ y l. absurd (none-Live h y (ground arith) l))
    | inr some_left ↦
        let root = root-Live h v (ground arith) in
        let least = top_least get_time_out h in
        let proc = procs (h.items 1) root in
        elim (Bool-cases (leb (h.val (h.items 1)).time_out_ms now)) [
          | inl due ↦
              let e = erase-Erased get_time_out h (h.items 1) v root in
              rw
                (loop-fires fuel h (h.val (h.items 1)) (least (h.items 1) v root).0
                  (rw (due, proc)))
                (fired-Fires h _ root (ground arith) e (
                  process_loop-Fires fuel (Heap.erase get_time_out (h.items 1) h)
                    (omega (arith, e.count)) e.valid (λ y l. rw e.vals (procs y (e.back y l).0))
                    (λ y l. rw e.vals (times y (e.back y l).0))))
          | inr early ↦
              idle-Fires h _
                (loop-waits fuel h (h.val (h.items 1)) (least (h.items 1) v root).0 (rw early)) v
                (λ y l. ground (arith, (least y v l).1, times y l, times (h.items 1) root))
        ]
  ]

  -- Where the callbacks leave the timers alone, every timer has one and every time is below 2 ^ 63,
  -- ProcessTimer ends after at most one round for each timer and one more, calls exactly the timers
  -- that are due, leaves exactly the others, and keeps the heap valid.
  pub process_timer-Fires :
      (fuel : ℕ) (h : Heap TimerData)
      → h.num_items < fuel
      → IsValid get_time_out h
      → AllProcs h
      → AllTimes h
      → Fires now h (process_timer now quiet fuel h)
  unfolding process_timer
  process_timer-Fires fuel h f v procs times = elim (Bool-cases (h.num_items == 0)) [
    | inl none_left ↦
        idle-Fires h _ (rw none_left) v (λ y l. absurd (none-Live h y (ground arith) l))
    | inr some_left ↦ rw some_left (process_loop-Fires fuel h f v procs times)
  ]
