-- ===== src/Coroutine/Turns.antt =====
-- CoroutineSchedule: whose turn it is after a message for a coroutine.
use libnbf.Prelude.{ℕ, ◌<◌, ◌≡◌, ◌≢◌, refl, true, false, [], ◌∷◌, none, some, leb, ◌==◌, arith}
use libnbf.Prelude.Memory.{update}
use libnbf.Coroutine.{
  co_running, co_suspend, coroutine_resume, coroutine_yield, Schedule, schedule_resume,
  schedule_yield, coroutine_yield_to_active, coroutine_resume_active,
}

-- What a change of turns from `r` to `id` leaves: `id` runs, `r` is suspended, the queue is empty.
pub record Turned (r id : ℕ) (s : Schedule) : Type 0 where
  pub runs : s.impl.running ≡ some id
  pub status : s.impl.coctxs id ≡ some co_running
  pub suspended : s.impl.coctxs r ≡ some co_suspend
  pub queue : s.active_coro_list ≡ []
  pub current : s.cur_coroutine_id ≡ some id

-- The schedule between the two switches.
abbrev between : ℕ → ℕ → Schedule → Schedule
between r id s = record s {
  impl = record s.impl { coctxs = update s.impl.coctxs r (some co_suspend); running = none };
  active_coro_list = id ∷ [];
  cur_coroutine_id = none;
}

yields :
    (s : Schedule) (r id : ℕ)
    → s.impl.running ≡ some r
    → s.active_coro_list ≡ []
    → id < s.impl.cap
    → r ≢ id
    → coroutine_yield_to_active id s ≡ (true, between r id s)
unfolding coroutine_yield_to_active schedule_yield coroutine_yield
yields s r id e q small ne =
    let inside : leb s.impl.cap id ≡ false = ground arith in
    let other : (r == id) ≡ false = ground (arith, ne) in
    rw (e, coroutine_yield_to_active, schedule_yield)
      (rw (inside, other, q) (rw (e, coroutine_yield) refl))

resumes :
    (s : Schedule) (id : ℕ)
    → s.impl.running ≡ none
    → s.active_coro_list ≡ id ∷ []
    → s.impl.coctxs id ≡ some co_suspend
    → id < s.impl.cap
    → coroutine_resume_active s ≡ (
      true,
      record s {
        impl = record s.impl {
          coctxs = update s.impl.coctxs id (some co_running);
          running = some id;
        };
        active_coro_list = [];
        cur_coroutine_id = some id;
      },
    )
unfolding coroutine_resume_active schedule_resume coroutine_resume
resumes s id e q w small =
    let inside : leb s.impl.cap id ≡ false = ground arith in
    rw (e, coroutine_resume_active)
      (rw (q, inside, schedule_resume) (rw (e, inside, w, coroutine_resume) refl))

-- Where the coroutine `r` runs, no coroutine waits for its turn, and another one of the table is
-- suspended, CoroutineYieldToActive of that one succeeds, and the CoroutineResumeActive after it
-- succeeds and makes that coroutine the one that runs, with `r` suspended and the queue empty again.
pub resume_active-yield_to_active :
    (s : Schedule) (r id : ℕ)
    → s.impl.running ≡ some r
    → s.active_coro_list ≡ []
    → id < s.impl.cap
    → r ≢ id
    → s.impl.coctxs id ≡ some co_suspend
    → let yielded = coroutine_yield_to_active id s in
      let resumed = coroutine_resume_active yielded.1 in
      (yielded.0 ≡ true) × (resumed.0 ≡ true) × Turned r id resumed.1
resume_active-yield_to_active s r id e q small ne w =
    let other : (id == r) ≡ false = ground (arith, ne) in
    let other' : (r == id) ≡ false = ground (arith, ne) in
    let same : (id == id) ≡ true = ground arith in
    let same' : (r == r) ≡ true = ground arith in
    rw (yields s r id e q small ne) (
      rw (resumes (between r id s) id refl refl (rw other w) small) (
        refl,
        refl,
        record {
          runs = refl;
          status = rw same refl;
          suspended = rw (other', same') refl;
          queue = refl;
          current = refl;
        },
      ))
