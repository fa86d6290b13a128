-- ===== src/TimerMgr/Run.antt =====
-- The loop of TimerMgr::RunTimer, where the callbacks may add timers.
use libnbf.Prelude.{
  ℕ, zero, suc, ◌+◌, ◌^◌, ◌≤◌, ◌<◌, ◌≡◌, refl, ap, ◌∙◌, List, [], ◌∷◌, Option, some, leb, arith,
  Bool-cases, inl, inr, length, map,
}
use libnbf.TimerMgr.{
  Entry, TimerMgr, Ran, calls, erase_id, add_timer_in_thread, add_timer, get_timer_id, run_round,
  run_timer,
}
use libnbf.TimerMgr.Order.{early, early-insert}

-- A callback leaves the timers that are due before `now` as they are; it may add later ones.
abbrev pub KeepsEarly : ℕ → (Entry → TimerMgr → TimerMgr) → Type 0
KeepsEarly now on_timer =
    (e : Entry) (m : TimerMgr) → early now (on_timer e m).timer_map ≡ early now m.timer_map

-- A run that ends, has called the timers given, and leaves none that is due before `now` in front.
pub record Runs (now : ℕ) (ids : List ℕ) (r : Option Ran) : Type 0 where
  pub ran : Ran
  pub ends : r ≡ some ran
  pub called : ran.called ≡ ids
  pub none_early : early now ran.left.timer_map ≡ []

-- The callback that adds the same timer again, when the clock reads `later`.
abbrev pub again_after : ℕ → ℕ → Entry → TimerMgr → TimerMgr
again_after later after e m = (add_timer later (some e.timer) after m).1

numbered_map : (m : TimerMgr) → (get_timer_id m).1.timer_map ≡ m.timer_map
unfolding get_timer_id
numbered_map m = ground arith

pub again_after-KeepsEarly :
    (now later after : ℕ)
    → now ≤ later
    → later + after < 2 ^ 64
    → KeepsEarly now (again_after later after)
unfolding add_timer add_timer_in_thread
again_after-KeepsEarly now later after h small e m =
    early-insert now _ (get_timer_id m).1.timer_map (omega arith) ∙ ap (early now) (numbered_map m)

stops :
    (now : ℕ) (m : TimerMgr)
    → early now m.timer_map ≡ []
    → Runs now [] (some (record { called = []; left = m }))
stops now m e = record {
  ran = record { called = []; left = m };
  ends = refl;
  called = refl;
  none_early = e;
}

more :
    (now id : ℕ) (ids : List ℕ) (r : Option Ran) → Runs now ids r → Runs now (id ∷ ids) (calls id r)
more now id ids r w = record {
  ran = record { called = id ∷ w.ran.called; left = w.ran.left };
  ends = ap (calls id) w.ends;
  called = ap (◌∷◌ id) w.called;
  none_early = w.none_early;
}

module _ (now : ℕ) (on_timer : Entry → TimerMgr → TimerMgr) (keeps : KeepsEarly now on_timer) where
  round-Runs :
      (xs : List Entry) (m : TimerMgr) (again : TimerMgr → Option Ran)
      → m.timer_map ≡ xs
      → ((k : TimerMgr)
          → length (early now k.timer_map) + 1 ≤ length (early now xs)
          → Runs now (map (λ e. e.id) (early now k.timer_map)) (again k))
      → Runs now (map (λ e. e.id) (early now xs)) (run_round now on_timer xs m again)
  unfolding run_round early
  round-Runs [] m again same r = stops now m (ap (early now) same)
  round-Runs (x ∷ xs) m again same r = elim (Bool-cases (leb now x.when)) [
    | inl late ↦ rw late (stops now m (rw same (rw late)))
    | inr soon ↦
        let next = on_timer x (record m { timer_map = xs; id_map = erase_id x.id m.id_map }) in
        let kept = keeps x (record m { timer_map = xs; id_map = erase_id x.id m.id_map }) in
        rw soon (more now x.id _ _ (rw kept at (r next (rw (soon, kept) (omega arith)))))
  ]

  -- Where every callback leaves the timers that are due before `now` as they are, also if it adds
  -- timers that are due at `now` or later, RunTimer ends after one round for each timer due before
  -- `now` and one more, calls exactly those timers, in the order of the multimap, and leaves none of
  -- them in front.
  pub run_timer-Runs :
      (fuel : ℕ) (m : TimerMgr)
      → length (early now m.timer_map) < fuel
      → Runs now (map (λ e. e.id) (early now m.timer_map)) (run_timer now on_timer fuel m)
  unfolding run_timer
  run_timer-Runs zero m f = absurd (omega arith)
  run_timer-Runs (suc fuel) m f =
      round-Runs m.timer_map m (run_timer now on_timer fuel) refl
        (λ k less. run_timer-Runs fuel k (omega arith))
