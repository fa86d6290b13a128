-- ===== src/TimerMgr/Order.antt =====
-- The multimap of TimerMgr: AddTimerInThread and DelTimerInThread.
use libnbf.Prelude.{
  ℕ, ◌≤◌, ◌≡◌, ◌≢◌, ap, ◌∙◌, true, false, List, [], ◌∷◌, none, some, leb, ◌==◌, if◌then◌else◌,
  arith, Bool-cases, inl, inr,
}
use libnbf.TimerMgr.{
  Entry, TimerMgr, insert_entry, erase_node, find_id, erase_id, insert_id, add_timer_in_thread,
  del_timer_in_thread,
}

-- The entries before the first that is not due at `now`.
unfoldable pub early : ℕ → List Entry → List Entry
early now [] = []
early now (x ∷ xs) = let rest = early now xs in if leb now x.when then [] else x ∷ rest

pub early-insert :
    (now : ℕ) (e : Entry) (xs : List Entry)
    → now ≤ e.when
    → early now (insert_entry e xs) ≡ early now xs
unfolding early insert_entry
early-insert now e [] h = let late : leb now e.when ≡ true = ground arith in rw late
early-insert now e (x ∷ xs) h = elim (Bool-cases (leb x.when e.when)) [
  | inl before ↦ elim (Bool-cases (leb now x.when)) [
    | inl late ↦ rw (before, late)
    | inr soon ↦ rw (before, soon, early-insert now e xs h)
  ]
  | inr behind ↦
      let late : leb now e.when ≡ true = ground arith in
      let stop : leb now x.when ≡ true = ground arith in rw (behind, late, stop)
]

-- In the order of their times.
abbrev pub IsAfter : ℕ → List Entry → Type 0
IsAfter t [] = Unit
IsAfter t (x ∷ xs) = (t ≤ x.when) × IsAfter x.when xs

insert-IsAfter :
    (t : ℕ) (e : Entry) (xs : List Entry)
    → t ≤ e.when
    → IsAfter t xs
    → IsAfter t (insert_entry e xs)
unfolding insert_entry
insert-IsAfter t e [] h s = (h, tt)
insert-IsAfter t e (x ∷ xs) h s = elim (Bool-cases (leb x.when e.when)) [
  | inl before ↦ rw before (s.0, insert-IsAfter x.when e xs (ground arith) s.1)
  | inr behind ↦ rw behind (h, (ground arith, s.1))
]

-- No entry stands at the place `node`.
abbrev pub Unused : ℕ → List Entry → Type 0
Unused node [] = Unit
Unused node (x ∷ xs) = (x.node ≢ node) × Unused node xs

erase-insert :
    (e : Entry) (xs : List Entry) → Unused e.node xs → erase_node e.node (insert_entry e xs) ≡ xs
unfolding erase_node insert_entry
erase-insert e [] u = let same : (e.node == e.node) ≡ true = ground arith in rw same
erase-insert e (x ∷ xs) u = elim (Bool-cases (leb x.when e.when)) [
  | inl before ↦
      let other : (x.node == e.node) ≡ false = ground (arith, u.0) in
      rw (before, other, erase-insert e xs u.1)
  | inr behind ↦ let same : (e.node == e.node) ≡ true = ground arith in rw (behind, same)
]

insert_id-new :
    (id node : ℕ) (xs : List (ℕ × ℕ))
    → find_id id xs ≡ none
    → insert_id id node xs ≡ (id, node) ∷ xs
unfolding insert_id
insert_id-new id node xs e = rw (e, insert_id)

find_id-first : (id node : ℕ) (xs : List (ℕ × ℕ)) → find_id id ((id, node) ∷ xs) ≡ some node
unfolding find_id
find_id-first id node xs = let same : (id == id) ≡ true = ground arith in rw same

erase_id-first : (id node : ℕ) (xs : List (ℕ × ℕ)) → erase_id id ((id, node) ∷ xs) ≡ xs
unfolding erase_id
erase_id-first id node xs = let same : (id == id) ≡ true = ground arith in rw same

del_timer-found :
    (id node : ℕ) (m : TimerMgr)
    → find_id id m.id_map ≡ some node
    → del_timer_in_thread id m
      ≡ record m { id_map = erase_id id m.id_map; timer_map = erase_node node m.timer_map }
unfolding del_timer_in_thread
del_timer-found id node m e = rw (e, del_timer_in_thread)

added_map :
    (id timer when : ℕ) (m : TimerMgr)
    → find_id id m.id_map ≡ none
    → (add_timer_in_thread id timer when m).id_map ≡ (id, m.fresh) ∷ m.id_map
unfolding add_timer_in_thread
added_map id timer when m e = insert_id-new id m.fresh m.id_map e

added_found :
    (id timer when : ℕ) (m : TimerMgr)
    → find_id id m.id_map ≡ none
    → find_id id (add_timer_in_thread id timer when m).id_map ≡ some m.fresh
added_found id timer when m e = rw (added_map id timer when m e) (find_id-first id m.fresh m.id_map)

-- AddTimerInThread keeps the timers in the order of their times; where neither the id nor the place
-- is in use, DelTimerInThread of the id then gives both maps back as they were.
pub del_timer-add_timer :
    (id timer when : ℕ) (m : TimerMgr)
    → IsAfter 0 m.timer_map
    → find_id id m.id_map ≡ none
    → Unused m.fresh m.timer_map
    → let added = add_timer_in_thread id timer when m in
      IsAfter 0 added.timer_map
      × ((del_timer_in_thread id added).timer_map ≡ m.timer_map)
      × ((del_timer_in_thread id added).id_map ≡ m.id_map)
unfolding add_timer_in_thread
del_timer-add_timer id timer when m s e u =
    let e' =
      del_timer-found id m.fresh (add_timer_in_thread id timer when m)
        (added_found id timer when m e) in
    (
      insert-IsAfter 0 _ m.timer_map (omega arith) s,
      ap (λ t. t.timer_map) e'
          ∙ erase-insert (record { when = when; id = id; timer = timer; node = m.fresh })
              m.timer_map u,
      ap (λ t. t.id_map) e'
          ∙ ap (erase_id id) (added_map id timer when m e)
          ∙ erase_id-first id m.fresh m.id_map,
    )
