-- ===== src/Tests/RingTests.antt =====
-- src/common/lockfree_ringbuffer.h with a ring of size 3.
use libnbf.Prelude.{
  ℕ, zero, suc, ◌≡◌, ◌≤◌, refl, ap, true, false, some, none, arith, List, [], ◌∷◌, get_elem?,
}
use libnbf.Ring.{Ring, init, push, pop, size, slot_of}
use libnbf.Ring.Queue.{
  Holds, RingCall, push_call, pop_call, ring_run, queue_run, Answers, ring_run-queue_run,
}

abbrev fresh : Ring ℕ
fresh = record { first_init = true; head = 0; tail = 0; real_queue_size = 0; slots = λ i. 0 }

abbrev four : Ring ℕ
four = init 4 0 fresh

-- A size of 4 gives a ring of 3 elements.
four-size : four.real_queue_size ≡ 3
unfolding init libnbf.Ring.power_from
four-size = refl

-- With three elements pushed and taken, the next index is 3, behind the block of 3 elements.
four-slot : slot_of four 3 ≡ 3
unfolding init libnbf.Ring.power_from
four-slot = refl

-- The push at that index is outside the block.
four-outside : push 9 (record four { head = 3; tail = 2 }) ≡ none
unfolding push init libnbf.Ring.power_from libnbf.Prelude.Words.sub64
four-outside = refl

abbrev one : Ring ℕ
one = record { first_init = false; head = 1; tail = 0; real_queue_size = 3; slots = λ i. 5 }

one-Holds : Holds one (5 ∷ [])
one-Holds = record {
  counted = refl;
  fits = omega arith;
  stands = λ i x e.
      elim i as (λ j. get_elem? (5 ∷ []) j ≡ some x → 5 ≡ x) [
        | zero ↦ λ f. ap (λ o. elim o [ none ↦ 5 | some y ↦ y ]) f
        | suc j ↦ λ f. cc
      ]
        e;
}

abbrev requests : List (RingCall ℕ)
requests = push_call 8 ∷ push_call 9 ∷ push_call 4 ∷ pop_call ∷ pop_call ∷ pop_call ∷ []

requests_answered : ring_run requests one ≡ some (queue_run 3 requests (5 ∷ []))
unfolding push pop libnbf.Prelude.Words.sub64
requests_answered = refl

ring_run-queue_run_example : Answers requests one (5 ∷ [])
ring_run-queue_run_example = ring_run-queue_run requests one (5 ∷ []) one-Holds (omega arith)
