-- ===== src/Sequence/Matched.antt =====
-- AsyncSequence: the map and the list hold the same messages, and a message is given out once.
use libnbf.Prelude.{
  ℕ, ◌≡◌, ◌≢◌, refl, ap, sym, ◌∙◌, ◌⊎◌, ◌↔◌, inl, inr, Bool, true, false, List, [], ◌∷◌, ◌++◌,
  Option, none, some, arith, ◌==◌, Bool-cases, In, In-append, In-append_left, In-append_last, map,
}
use libnbf.Prelude.Memory.{update}
use libnbf.Sequence.{
  AsyncSequence, remove, put, get, clear, fail_all, clean_sequence_queue, internal_failure,
}

pub In-remove : (y m : ℕ) (xs : List ℕ) → In y (remove m xs) → In y xs × (y ≢ m)
unfolding remove
In-remove y m [] i = absurd i
In-remove y m (x ∷ xs) i = elim (Bool-cases (x == m)) [
  | inl same ↦ let r = In-remove y m xs (rw same at i) in (inr r.0, r.1)
  | inr other ↦ elim (rw other at i) [
    | inl here ↦ (inl here, λ e. ground arith)
    | inr there ↦ let r = In-remove y m xs there in (inr r.0, r.1)
  ]
]

pub In-remove_kept : (y m : ℕ) (xs : List ℕ) → y ≢ m → In y xs → In y (remove m xs)
unfolding remove
In-remove_kept y m [] ne i = absurd i
In-remove_kept y m (x ∷ xs) ne (inl here) =
    let other : (x == m) ≡ false = ground (arith, ne) in rw other (inl here)
In-remove_kept y m (x ∷ xs) ne (inr there) = elim (Bool-cases (x == m)) [
  | inl same ↦ rw same (In-remove_kept y m xs ne there)
  | inr other ↦ rw other (inr (In-remove_kept y m xs ne there))
]

abbrev value : Option ℕ → ℕ
value none = 0
value (some m) = m

module _ {T : Type 0} (sequence_id : ℕ → ℕ) where
  -- Each message stands in the map under its own sequence id, and in the list, or in neither.
  pub record IsMatched (s : AsyncSequence T) : Type 0 where
    pub keyed : (id m : ℕ) → s.registery id ≡ some m → sequence_id m ≡ id
    pub listed : (m : ℕ) → s.registery (sequence_id m) ≡ some m → In m s.list
    pub known : (m : ℕ) → In m s.list → s.registery (sequence_id m) ≡ some m

  empty-IsMatched :
      (s : AsyncSequence T) → IsMatched (record s { registery = λ id. none; list = [] })
  empty-IsMatched s = record { keyed = λ id m e. cc; listed = λ m e. cc; known = λ m i. absurd i }

  -- What an operation gives where a message is taken out: it was there, is there no longer, and every
  -- other message stays.
  pub record Taken (id m : ℕ) (s s' : AsyncSequence T) : Type 0 where
    pub own : sequence_id m ≡ id
    pub was : In m s.list
    pub gone : ¬ (In m s'.list)
    pub free : s'.registery id ≡ none
    pub kept : (y : ℕ) → y ≢ m → In y s.list → In y s'.list
    pub back : (y : ℕ) → In y s'.list → In y s.list
    pub matched : IsMatched s'

  module _ (s : AsyncSequence T) (v : IsMatched s) where
    taken :
        (id m : ℕ) (t : T)
        → s.registery id ≡ some m
        → Taken id m s (record s {
          registery = update s.registery id none;
          list = remove m s.list;
          timers = t;
        })
    taken id m t e =
        let own = v.keyed id m e in
        record {
          own = own;
          was = v.listed m (rw own e);
          gone = λ i. (In-remove m m s.list i).1 refl;
          free = ground arith;
          kept = λ y ne i. In-remove_kept y m s.list ne i;
          back = λ y i. (In-remove y m s.list i).0;
          matched = record {
            keyed = λ k y f. ground (arith, v.keyed k y);
            listed = λ y f. elim (Bool-cases (sequence_id y == id)) [
              | inl same ↦ absurd (cc (rw same at f))
              | inr other ↦
                  In-remove_kept y m s.list (λ q. ground (arith, ap sequence_id q))
                    (v.listed y (rw other at f))
            ];
            known = λ y i.
                let r = In-remove y m s.list i in
                let f = v.known y r.0 in
                elim (Bool-cases (sequence_id y == id)) [
                  | inl same ↦ absurd (r.1 (ap value (sym f ∙ ap s.registery (ground arith) ∙ e)))
                  | inr other ↦ rw other f
                ];
          };
        }

module _ {T : Type 0} (start_timer : ℕ → T → ℕ × T) (cancel : ℕ → T → T) (sequence_id : ℕ → ℕ)
    (has_thread : Bool) where
  -- What Put does: it refuses a sequence id that is in use and changes nothing, or it adds exactly the
  -- message.
  pub data Puts (m : ℕ) (s : AsyncSequence T) : Bool × AsyncSequence T → Type 0 where
    refused : (other : ℕ) → s.registery (sequence_id m) ≡ some other → Puts m s (false, s)
    added :
        (s' : AsyncSequence T)
        → s.registery (sequence_id m) ≡ none
        → IsMatched sequence_id s'
        → ((y : ℕ) → In y s'.list ↔ (In y s.list ⊎ (y ≡ m)))
        → Puts m s (true, s')

  -- What Get does: nothing under an id that is not there; otherwise it takes the one message out.
  pub data Gets (id : ℕ) (s : AsyncSequence T) : Option ℕ × AsyncSequence T → Type 0 where
    nothing : s.registery id ≡ none → Gets id s (none, s)
    took : (m : ℕ) (s' : AsyncSequence T) → Taken sequence_id id m s s' → Gets id s (some m, s')

  -- On a matched sequence, Get does nothing where the sequence id is not in use, and otherwise gives the
  -- one message with that sequence id, which then stands in neither the map nor the list, keeps every
  -- other message, and leaves the sequence matched.
  pub get-Gets :
      (s : AsyncSequence T) (id : ℕ)
      → IsMatched sequence_id s
      → Gets id s (get start_timer cancel sequence_id has_thread id s)
  unfolding get
  get-Gets s id v = found (s.registery id) refl
    where
      found :
          (r : Option ℕ)
          → s.registery id ≡ r
          → Gets id s (get start_timer cancel sequence_id has_thread id s)
      found none e = rw (e, get) (nothing e)
      found (some m) e = rw (e, get) (took m _ (taken sequence_id s v id m _ e))

  -- The sequence with one message more, whatever its timer.
  abbrev joined : AsyncSequence T → ℕ → (ℕ → ℕ) → T → AsyncSequence T
  joined s m ids t = record {
    registery = update s.registery (sequence_id m) (some m);
    list = s.list ++ (m ∷ []);
    timer_out_id = ids;
    timers = t;
  }

  joined-IsMatched :
      (s : AsyncSequence T) (m : ℕ) (ids : ℕ → ℕ) (t : T)
      → IsMatched sequence_id s
      → s.registery (sequence_id m) ≡ none
      → IsMatched sequence_id (joined s m ids t)
  joined-IsMatched s m ids t v e = record {
    keyed = λ id y f. elim (Bool-cases (id == sequence_id m)) [
      | inl same ↦ ap sequence_id (sym (ap value (rw same at f))) ∙ sym (ground arith)
      | inr other ↦ v.keyed id y (rw other at f)
    ];
    listed = λ y f. elim (Bool-cases (sequence_id y == sequence_id m)) [
      | inl same ↦ rw (sym (ap value (rw same at f))) (In-append_last m s.list)
      | inr other ↦ In-append_left y m s.list (v.listed y (rw other at f))
    ];
    known = λ y i. elim (Bool-cases (sequence_id y == sequence_id m)) [
      | inl same ↦ elim (In-append y m s.list i) [
        | inl there ↦ absurd (cc (sym (v.known y there) ∙ ap s.registery (ground arith) ∙ e))
        | inr last ↦ rw same (ap some (sym last))
      ]
      | inr other ↦ elim (In-append y m s.list i) [
        | inl there ↦ rw other (v.known y there)
        | inr last ↦ absurd (ground (arith, ap sequence_id last))
      ]
    ];
  }

  joined-Puts :
      (s : AsyncSequence T) (m : ℕ) (ids : ℕ → ℕ) (t : T)
      → IsMatched sequence_id s
      → s.registery (sequence_id m) ≡ none
      → Puts m s (true, joined s m ids t)
  joined-Puts s m ids t v e = added (joined s m ids t) e (joined-IsMatched s m ids t v e) (λ y. (
    In-append y m s.list,
    λ r. elim r [
      | inl i ↦ In-append_left y m s.list i
      | inr last ↦ rw last (In-append_last m s.list)
    ],
  ))

  -- On a matched sequence, Put refuses a message whose sequence id is in use and changes nothing, and
  -- otherwise adds exactly that message and leaves the sequence matched.
  pub put-Puts :
      (s : AsyncSequence T) (m : ℕ)
      → IsMatched sequence_id s
      → Puts m s (put start_timer cancel sequence_id has_thread m s)
  unfolding put
  put-Puts s m v = found (s.registery (sequence_id m)) refl
    where
      found :
          (r : Option ℕ)
          → s.registery (sequence_id m) ≡ r
          → Puts m s (put start_timer cancel sequence_id has_thread m s)
      found none e = rw (e, put) (joined-Puts s m _ _ v e)
      found (some other) e = rw (e, put) (refused other e)

  fail_all-answers :
      (ms : List ℕ) (ids : ℕ → ℕ) (t : T)
      → (fail_all start_timer cancel sequence_id has_thread ms ids t).0 ≡ map internal_failure ms
  unfolding fail_all
  fail_all-answers [] ids t = refl
  fail_all-answers (m ∷ ms) ids t = ap (◌∷◌ (internal_failure m)) (fail_all-answers ms ids _)

  -- CleanSequenceQueue answers each waiting message with an internal failure, in the order in which
  -- they were put, and leaves a matched sequence from which Get gives nothing.
  pub clean_sequence_queue-answers :
      (s : AsyncSequence T) (id : ℕ)
      → let cleaned = clean_sequence_queue start_timer cancel sequence_id has_thread s in
        (cleaned.0 ≡ map internal_failure s.list)
        × IsMatched sequence_id cleaned.1
        × ((get start_timer cancel sequence_id has_thread id cleaned.1).0 ≡ none)
  unfolding clean_sequence_queue clear get
  clean_sequence_queue-answers s id = (
    fail_all-answers s.list s.timer_out_id s.timers,
    empty-IsMatched sequence_id (record s {
      timers =
          (fail_all start_timer cancel sequence_id has_thread s.list s.timer_out_id s.timers).1;
    }),
    refl,
  )
