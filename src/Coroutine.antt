-- ===== src/Coroutine.antt =====
-- src/coroutine/coroutine_impl.cpp and coroutine_schedule.cpp: the coroutines of a thread and their
-- schedule. A coroutine is its status at its place in the table; the stacks and the switch between
-- them (ucontext) are left out, so that a call of swapcontext ends the operation. The running id is
-- none for -1.
pub mod Running
pub mod Turns
pub mod Actor
use libnbf.Prelude.{
  ℕ, zero, suc, ◌+◌, ◌-◌, ◌%◌, Bool, true, false, not, ◌&&◌, ◌||◌, List, [], ◌∷◌, ◌++◌, Option,
  none, some, leb, ltb, ◌==◌, if◌then◌else◌,
}
use libnbf.Prelude.Memory.{update}

pub data Status : Type 0 where
  co_ready : Status
  co_running : Status
  co_suspend : Status

-- CoroSchedule: the table, nco, cap and running. A null pointer in the table is none.
pub record Coros : Type 0 where
  pub coctxs : ℕ → Option Status
  pub nco : ℕ
  pub cap : ℕ
  pub running : Option ℕ

unfoldable pub coroutine_init : ℕ → Coros
coroutine_init size = record { coctxs = λ id. none; nco = 0; cap = size; running = none }

-- The loop of CoroutineNew: the first free place, from nco on.
unfoldable pub free_place : Coros → ℕ → ℕ → Option ℕ
free_place s idx zero = none
free_place s idx (suc left) =
    let id = (idx + s.nco) % s.cap in
    let rest = free_place s (idx + 1) left in
    elim (s.coctxs id) [ none ↦ some id | some status ↦ rest ]

abbrev pub with_new : Coros → Option ℕ → Option ℕ × Coros
with_new s none = (none, s)
with_new s (some id) =
    (some id, record s { coctxs = update s.coctxs id (some co_ready); nco = s.nco + 1 })

-- CoroutineNew; none is -1.
unfoldable pub coroutine_new : Coros → Option ℕ × Coros
coroutine_new s =
    if leb s.cap s.nco
    then (
      some s.cap,
      record s { coctxs = update s.coctxs s.cap (some co_ready); cap = s.cap + 1; nco = s.nco + 1 },
    )
    else with_new s (free_place s 0 s.cap)

-- The end of MainFunc, after the function of the coroutine that runs.
unfoldable pub main_func_end : ℕ → Coros → Coros
main_func_end id s = record s { coctxs = update s.coctxs id none; nco = s.nco - 1; running = none }

-- CoroutineResume at the status of the coroutine.
abbrev pub start_at : ℕ → Coros → Option Status → Coros
start_at id s none = s
start_at id s (some co_ready) = record s {
  coctxs = update s.coctxs id (some co_running);
  running = some id;
}
start_at id s (some co_suspend) = record s {
  coctxs = update s.coctxs id (some co_running);
  running = some id;
}
start_at id s (some co_running) = s

-- CoroutineResume, up to the switch to the coroutine.
unfoldable pub coroutine_resume : ℕ → Coros → Coros
coroutine_resume id s = elim s.running [
  | some other ↦ s
  | none ↦ if leb s.cap id then s else start_at id s (s.coctxs id)
]

-- CoroutineYield, up to the switch to the main context.
unfoldable pub coroutine_yield : Coros → Coros
coroutine_yield s = elim s.running [
  | none ↦ s
  | some id ↦ record s { coctxs = update s.coctxs id (some co_suspend); running = none }
]

-- CoroutineStatus; none is kCoroutineInvalid.
unfoldable pub coroutine_status : Coros → ℕ → Option Status
coroutine_status s id = if leb s.cap id then none else s.coctxs id

-- CoroutineSchedule: available_coro_list_ is an unordered set, a list without an order that counts,
-- and active_coro_list_ a queue.
pub record Schedule : Type 0 where
  pub impl : Coros
  pub all_coro_list : List ℕ
  pub available_coro_list : List ℕ
  pub active_coro_list : List ℕ
  pub cur_coroutine_id : Option ℕ

unfoldable pub is_available : ℕ → List ℕ → Bool
is_available id [] = false
is_available id (x ∷ xs) = (x == id) || is_available id xs

unfoldable pub after_yield_to_available : ℕ → Schedule → Schedule
after_yield_to_available id s =
    if is_available id s.available_coro_list
    then s
    else record s { available_coro_list = id ∷ s.available_coro_list }

abbrev pub is_running : ℕ → Option ℕ → Bool
is_running id none = false
is_running id (some r) = r == id

unfoldable pub schedule_resume : ℕ → Schedule → Schedule
schedule_resume id s =
    if leb s.impl.cap id
    then s
    else record s { cur_coroutine_id = some id; impl = coroutine_resume id s.impl }

unfoldable pub schedule_yield : Schedule → Schedule
schedule_yield s = record s { cur_coroutine_id = none; impl = coroutine_yield s.impl }

unfoldable pub erase_available : ℕ → List ℕ → List ℕ
erase_available id [] = []
erase_available id (x ∷ xs) = let rest = erase_available id xs in if x == id then xs else x ∷ rest

-- CoroutineYield of an id
unfoldable pub coroutine_yield_id : ℕ → Schedule → Schedule
coroutine_yield_id id s =
    let taken = record s { available_coro_list = erase_available id s.available_coro_list } in
    if is_running id s.impl.running then schedule_yield taken else taken

-- CoroutineYieldToActive
unfoldable pub coroutine_yield_to_active : ℕ → Schedule → Bool × Schedule
coroutine_yield_to_active id s =
    let queued = record s { active_coro_list = s.active_coro_list ++ (id ∷ []) } in
    if leb s.impl.cap id || is_running id s.impl.running
    then (false, s)
    else elim s.impl.running [ none ↦ (false, queued) | some r ↦ (true, schedule_yield queued) ]

-- The branch of CoroutineResumeActive in which a coroutine is waiting.
abbrev pub resume_front : Schedule → List ℕ → Bool × Schedule
resume_front s [] = (false, s)
resume_front s (id ∷ ids) =
    let popped = record s { active_coro_list = ids } in
    if leb s.impl.cap id then (false, popped) else (true, schedule_resume id popped)

-- CoroutineResumeActive
unfoldable pub coroutine_resume_active : Schedule → Bool × Schedule
coroutine_resume_active s = elim s.impl.running [
  | some r ↦ (false, s)
  | none ↦ resume_front s s.active_coro_list
]
