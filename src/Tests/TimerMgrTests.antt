-- ===== src/Tests/TimerMgrTests.antt =====
-- src/common/timer_mgr.cpp with two timers, one of which adds itself again.
use libnbf.Prelude.{ℕ, ◌≡◌, refl, [], ◌∷◌, arith, map}
use libnbf.TimerMgr.{
  TimerMgr, Entry, add_timer, add_timer_in_thread, del_timer_in_thread, run_timer,
}
use libnbf.TimerMgr.Order.{IsAfter, early, del_timer-add_timer}
use libnbf.TimerMgr.Run.{Runs, again_after, again_after-KeepsEarly, run_timer-Runs}

abbrev entry : ℕ → ℕ → Entry
entry when id = record { when = when; id = id; timer = 50; node = id }

abbrev two : TimerMgr
two = record {
  timer_map = entry 10 2 ∷ entry 20 1 ∷ [];
  id_map = (1, 1) ∷ (2, 2) ∷ [];
  last_id = 2;
  fresh = 3;
}

del_timer-add_timer_example :
    let added = add_timer_in_thread 3 50 15 two in
    IsAfter 0 added.timer_map
    × ((del_timer_in_thread 3 added).timer_map ≡ two.timer_map)
    × ((del_timer_in_thread 3 added).id_map ≡ two.id_map)
unfolding libnbf.TimerMgr.find_id
del_timer-add_timer_example =
    del_timer-add_timer 3 50 15 two (omega arith, (omega arith, tt)) refl
      ((λ e. omega (arith, e)), ((λ e. omega (arith, e)), tt))

-- The callback adds its timer again at once, while the clock reads 15.
run_timer-Runs_example :
    Runs 15 (map (λ e. e.id) (early 15 two.timer_map)) (run_timer 15 (again_after 15 0) 2 two)
unfolding early
run_timer-Runs_example =
    run_timer-Runs 15 (again_after 15 0)
      (again_after-KeepsEarly 15 15 0 (omega arith) (omega arith)) 2 two (omega arith)
