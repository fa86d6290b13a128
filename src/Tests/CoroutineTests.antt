-- ===== src/Tests/CoroutineTests.antt =====
-- src/coroutine: two coroutines, one of which runs while the other waits for a message.
use libnbf.Prelude.{◌≡◌, refl, true, [], ◌∷◌, some, none, arith, ◌==◌, if◌then◌else◌}
use libnbf.Coroutine.{
  Status, co_running, co_suspend, Coros, Schedule, coroutine_init, coroutine_new, coroutine_resume,
  coroutine_yield_to_active, coroutine_resume_active,
}
use libnbf.Coroutine.Running.{IsValid, start, next, created, resumed, Reach-IsValid}
use libnbf.Coroutine.Turns.{Turned, resume_active-yield_to_active}

abbrev one : Coros
one = (coroutine_new (coroutine_init 2)).1

-- The first place is taken, and its coroutine runs.
abbrev running_one : Coros
running_one = coroutine_resume 0 one

running_one-runs : running_one.running ≡ some 0
unfolding coroutine_resume coroutine_new coroutine_init libnbf.Coroutine.free_place
running_one-runs = refl

Reach-IsValid_example : IsValid running_one
Reach-IsValid_example = Reach-IsValid 2 running_one (
    next one running_one (next (coroutine_init 2) one start (created (coroutine_init 2)))
      (resumed one 0))

abbrev waiting : Schedule
waiting = record {
  impl = record {
    coctxs = λ id. if id == 0 then some co_running else if id == 1 then some co_suspend else none;
    nco = 2;
    cap = 2;
    running = some 0;
  };
  all_coro_list = 0 ∷ 1 ∷ [];
  available_coro_list = [];
  active_coro_list = [];
  cur_coroutine_id = some 0;
}

resume_active-yield_to_active_example :
    let yielded = coroutine_yield_to_active 1 waiting in
    let resumed = coroutine_resume_active yielded.1 in
    (yielded.0 ≡ true) × (resumed.0 ≡ true) × Turned 0 1 resumed.1
resume_active-yield_to_active_example =
    resume_active-yield_to_active waiting 0 1 refl refl (omega arith) (λ e. omega (arith, e)) refl
