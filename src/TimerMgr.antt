-- ===== src/TimerMgr.antt =====
-- src/common/timer_mgr.h and timer_mgr.cpp: the timers of coroutines, a multimap from times to timers
-- and a map from ids to places in it. A place is a number of its own, `node`, for the iterator that
-- the source keeps. The clock and the callbacks are arguments.
pub mod Order
pub mod Run
use libnbf.Prelude.{
  ℕ, zero, suc, ◌+◌, ◌-◌, ◌%◌, ◌^◌, Bool, true, false, List, [], ◌∷◌, Option, none, some, leb, ltb,
  ◌==◌, if◌then◌else◌,
}

-- An element of timer_map_: its time, and the TimerInfo.
pub record Entry : Type 0 where
  pub when : ℕ
  pub id : ℕ
  pub timer : ℕ
  pub node : ℕ

-- `last_id` is the static tmid of GetTimerId; `fresh` is above every node that was given out.
pub record TimerMgr : Type 0 where
  pub timer_map : List Entry
  pub id_map : List (ℕ × ℕ)
  pub last_id : ℕ
  pub fresh : ℕ

-- timer_map_.insert: behind the elements of the same time.
unfoldable pub insert_entry : Entry → List Entry → List Entry
insert_entry e [] = e ∷ []
insert_entry e (x ∷ xs) =
    let rest = insert_entry e xs in if leb x.when e.when then x ∷ rest else e ∷ x ∷ xs

unfoldable pub erase_node : ℕ → List Entry → List Entry
erase_node node [] = []
erase_node node (x ∷ xs) = let rest = erase_node node xs in if x.node == node then xs else x ∷ rest

unfoldable pub find_id : ℕ → List (ℕ × ℕ) → Option ℕ
find_id id [] = none
find_id id ((key, node) ∷ xs) = let rest = find_id id xs in if key == id then some node else rest

unfoldable pub erase_id : ℕ → List (ℕ × ℕ) → List (ℕ × ℕ)
erase_id id [] = []
erase_id id ((key, node) ∷ xs) =
    let rest = erase_id id xs in if key == id then xs else (key, node) ∷ rest

-- id_map_.insert: a key that is there stays as it is.
unfoldable pub insert_id : ℕ → ℕ → List (ℕ × ℕ) → List (ℕ × ℕ)
insert_id id node xs = elim (find_id id xs) [ none ↦ (id, node) ∷ xs | some other ↦ xs ]

unfoldable pub get_timer_id : TimerMgr → ℕ × TimerMgr
get_timer_id m =
    let id = (m.last_id + 1) % 2 ^ 64 in
    if ltb 0 id then (id, record m { last_id = id }) else (1, record m { last_id = 1 })

unfoldable pub add_timer_in_thread : ℕ → ℕ → ℕ → TimerMgr → TimerMgr
add_timer_in_thread id timer when m = record m {
  timer_map =
      insert_entry (record { when = when; id = id; timer = timer; node = m.fresh }) m.timer_map;
  id_map = insert_id id m.fresh m.id_map;
  fresh = m.fresh + 1;
}

unfoldable pub del_timer_in_thread : ℕ → TimerMgr → TimerMgr
del_timer_in_thread id m = elim (find_id id m.id_map) [
  | none ↦ m
  | some node ↦ record m { id_map = erase_id id m.id_map; timer_map = erase_node node m.timer_map }
]

-- AddTimer at the time `now`; the result for no timer is -1 as a uint64_t.
unfoldable pub add_timer : ℕ → Option ℕ → ℕ → TimerMgr → ℕ × TimerMgr
add_timer now none after m = (2 ^ 64 - 1, m)
add_timer now (some timer) after m =
    let numbered = get_timer_id m in
    (numbered.0, add_timer_in_thread numbered.0 timer ((now + after) % 2 ^ 64) numbered.1)

unfoldable pub del_timer : ℕ → TimerMgr → TimerMgr
del_timer id m = del_timer_in_thread id m

-- The ids of the timers called, in order, and the timers left.
pub record Ran : Type 0 where
  pub called : List ℕ
  pub left : TimerMgr

abbrev pub calls : ℕ → Option Ran → Option Ran
calls id none = none
calls id (some r) = some (record r { called = id ∷ r.called })

module _ (now : ℕ) (on_timer : Entry → TimerMgr → TimerMgr) where
  -- One round of RunTimer at what the multimap holds, and the rest of the loop from there.
  unfoldable pub run_round : List Entry → TimerMgr → (TimerMgr → Option Ran) → Option Ran
  run_round [] m again = some (record { called = []; left = m })
  run_round (x ∷ xs) m again =
      let rest =
        calls x.id
          (again (on_timer x (record m { timer_map = xs; id_map = erase_id x.id m.id_map }))) in
      if leb now x.when then some (record { called = []; left = m }) else rest

  -- `none` means that the fuel ran out. The first test of RunTimer is that of the loop again.
  unfoldable pub run_timer : ℕ → TimerMgr → Option Ran
  run_timer zero m = none
  run_timer (suc fuel) m = run_round m.timer_map m (run_timer fuel)
