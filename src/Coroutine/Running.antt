-- ===== src/Coroutine/Running.antt =====
-- CoroutineImpl: at most one coroutine of a thread runs, and it is the one that `running` names.
use libnbf.Prelude.{
  ℕ, zero, suc, ◌+◌, ◌-◌, ◌%◌, ◌≤◌, ◌<◌, ◌≡◌, ◌≢◌, refl, ap, sym, ◌∙◌, true, false, Option, none,
  some, leb, ◌==◌, arith, Bool-cases, inl, inr,
}
use native.Mathlib.Nat.{mod-lt}
use libnbf.Prelude.Memory.{update}
use libnbf.Coroutine.{
  Status, co_ready, co_running, co_suspend, Coros, coroutine_init, free_place, with_new,
  coroutine_new, main_func_end, start_at, coroutine_resume, coroutine_yield,
}

-- The coroutine that `running` names has the status of a running one, and no other has it.
pub record IsValid (s : Coros) : Type 0 where
  pub runs : (id : ℕ) → s.running ≡ some id → s.coctxs id ≡ some co_running
  pub only : (id : ℕ) → s.coctxs id ≡ some co_running → s.running ≡ some id
  pub unused : (id : ℕ) → s.cap ≤ id → s.coctxs id ≡ none

abbrev value : Option ℕ → ℕ
value none = 0
value (some id) = id

-- The operations, and the end of the function of the coroutine that runs.
pub data Step : Coros → Coros → Type 0 where
  created : (s : Coros) → Step s (coroutine_new s).1
  resumed : (s : Coros) (id : ℕ) → Step s (coroutine_resume id s)
  yielded : (s : Coros) → Step s (coroutine_yield s)
  finished : (s : Coros) (id : ℕ) → s.running ≡ some id → Step s (main_func_end id s)

pub data Reach (size : ℕ) : Coros → Type 0 where
  start : Reach size (coroutine_init size)
  next : (s t : Coros) → Reach size s → Step s t → Reach size t

init-IsValid : (size : ℕ) → IsValid (coroutine_init size)
unfolding coroutine_init
init-IsValid size = record { runs = λ id e. cc; only = λ id e. cc; unused = λ id h. refl }

-- A coroutine that was free becomes ready.
place-IsValid :
    (s : Coros) (id n c : ℕ)
    → IsValid s
    → s.coctxs id ≡ none
    → id < c
    → s.cap ≤ c
    → IsValid (record s { coctxs = update s.coctxs id (some co_ready); nco = n; cap = c })
place-IsValid s id n c v free small more = record {
  runs = λ k e. elim (Bool-cases (k == id)) [
    | inl same ↦ absurd (cc (sym (v.runs k e) ∙ ap s.coctxs (ground arith) ∙ free))
    | inr other ↦ rw other (v.runs k e)
  ];
  only = λ k e. elim (Bool-cases (k == id)) [
    | inl same ↦ absurd (cc (rw same at e))
    | inr other ↦ v.only k (rw other at e)
  ];
  unused =
      λ k h. let other : (k == id) ≡ false = ground arith in rw other (v.unused k (omega arith));
}

-- What a search finds is a place of the table, and free.
abbrev Free : Coros → Option ℕ → Type 0
Free s none = Unit
Free s (some id) = (id < s.cap) × (s.coctxs id ≡ none)

free_place-Free : (s : Coros) (idx left : ℕ) → 1 ≤ s.cap → Free s (free_place s idx left)
unfolding free_place
free_place-Free s idx zero pos = tt
free_place-Free s idx (suc left) pos =
    at (s.coctxs ((idx + s.nco) % s.cap)) refl (free_place-Free s (idx + 1) left pos)
  where
    at :
        (r : Option Status)
        → s.coctxs ((idx + s.nco) % s.cap) ≡ r
        → Free s (free_place s (idx + 1) left)
        → Free s (free_place s idx (suc left))
    at none e rest = rw (e, free_place) (mod-lt (idx + s.nco) (omega arith), e)
    at (some status) e rest = rw (e, free_place) rest

with_new-IsValid :
    (s : Coros) (found : Option ℕ) → IsValid s → Free s found → IsValid (with_new s found).1
with_new-IsValid s none v f = v
with_new-IsValid s (some id) v f = place-IsValid s id (s.nco + 1) s.cap v f.1 f.0 (omega arith)

new-IsValid : (s : Coros) → IsValid s → IsValid (coroutine_new s).1
unfolding coroutine_new
new-IsValid s v = elim (Bool-cases (leb s.cap s.nco)) [
  | inl full ↦ rw full (
      place-IsValid s s.cap (s.nco + 1) (s.cap + 1) v (v.unused s.cap (omega arith)) (omega arith)
        (omega arith))
  | inr room ↦ rw room (with_new-IsValid s _ v (free_place-Free s 0 s.cap (ground arith)))
]

-- Where no coroutine runs, one of the table is made the one that runs.
switch-IsValid :
    (s : Coros) (id : ℕ)
    → IsValid s
    → s.running ≡ none
    → id < s.cap
    → IsValid (record s { coctxs = update s.coctxs id (some co_running); running = some id })
switch-IsValid s id v idle small = record {
  runs = λ k e. let same : (k == id) ≡ true = ground (arith, ap value e) in rw same refl;
  only = λ k e. elim (Bool-cases (k == id)) [
    | inl same ↦ ap some (sym (ground arith))
    | inr other ↦ absurd (cc (sym (v.only k (rw other at e)) ∙ idle))
  ];
  unused = λ k h. let other : (k == id) ≡ false = ground arith in rw other (v.unused k h);
}

start-IsValid :
    (s : Coros) (id : ℕ) (r : Option Status)
    → IsValid s
    → s.running ≡ none
    → id < s.cap
    → IsValid (start_at id s r)
start-IsValid s id none v idle small = v
start-IsValid s id (some co_ready) v idle small = switch-IsValid s id v idle small
start-IsValid s id (some co_suspend) v idle small = switch-IsValid s id v idle small
start-IsValid s id (some co_running) v idle small = v

resume-IsValid : (s : Coros) (id : ℕ) → IsValid s → IsValid (coroutine_resume id s)
unfolding coroutine_resume
resume-IsValid s id v = at s.running refl
  where
    at : (r : Option ℕ) → s.running ≡ r → IsValid (coroutine_resume id s)
    at (some other) e = rw (e, coroutine_resume) v
    at none e =
        rw (e, coroutine_resume)
          (elim (Bool-cases (leb s.cap id)) [
            | inl out ↦ rw out v
            | inr inside ↦ rw inside (start-IsValid s id (s.coctxs id) v e (ground arith))
          ])

-- The coroutine that runs gets a status that is not that of a running one.
stop-IsValid :
    (s : Coros) (id n : ℕ) (r : Option Status)
    → IsValid s
    → s.running ≡ some id
    → r ≢ some co_running
    → IsValid (record s { coctxs = update s.coctxs id r; nco = n; running = none })
stop-IsValid s id n r v e ne = record {
  runs = λ k f. cc;
  only = λ k f. elim (Bool-cases (k == id)) [
    | inl same ↦ absurd (ne (rw same at f))
    | inr other ↦
        let same : id ≡ k = ap value (sym e ∙ v.only k (rw other at f)) in absurd (ground arith)
  ];
  unused = λ k h. elim (Bool-cases (k == id)) [
    | inl same ↦ absurd (cc (sym (v.runs id e) ∙ ap s.coctxs (sym (ground arith)) ∙ v.unused k h))
    | inr other ↦ rw other (v.unused k h)
  ];
}

yield-IsValid : (s : Coros) → IsValid s → IsValid (coroutine_yield s)
unfolding coroutine_yield
yield-IsValid s v = at s.running refl
  where
    at : (r : Option ℕ) → s.running ≡ r → IsValid (coroutine_yield s)
    at none e = rw (e, coroutine_yield) v
    at (some id) e =
        rw (e, coroutine_yield) (stop-IsValid s id s.nco (some co_suspend) v e (λ q. cc q))

Step-IsValid : (s t : Coros) → Step s t → IsValid s → IsValid t
unfolding main_func_end
Step-IsValid _ _ (created s) v = new-IsValid s v
Step-IsValid _ _ (resumed s id) v = resume-IsValid s id v
Step-IsValid _ _ (yielded s) v = yield-IsValid s v
Step-IsValid _ _ (finished s id e) v = stop-IsValid s id (s.nco - 1) none v e (λ q. cc q)

-- After any sequence of new coroutines, resumes, yields and ends of coroutines, from a new table of
-- any size, at most one coroutine is running: it is the one that `running` names, and the places
-- behind the table are unused.
pub Reach-IsValid : (size : ℕ) (s : Coros) → Reach size s → IsValid s
Reach-IsValid size _ start = init-IsValid size
Reach-IsValid size _ (next s t r step) = Step-IsValid s t step (Reach-IsValid size s r)
