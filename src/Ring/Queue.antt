-- ===== src/Ring/Queue.antt =====
-- The ring is a queue of bounded length, as long as it stays inside its block.
use native.Mathlib.Nat.{mod-lt}
use libnbf.Prelude.{
  ℕ, suc, ◌+◌, ◌%◌, ◌^◌, ◌≤◌, ◌<◌, ◌≡◌, refl, ap, ◌∙◌, Bool, true, false, List, [], ◌∷◌, ◌++◌,
  Option, none, some, ltb, leb, ◌==◌, arith, Bool-cases, inl, inr, ◌⊎◌, length, length-append,
  get_elem?, if◌then◌else◌,
}
use libnbf.Prelude.Words.{sub64}
use libnbf.Prelude.Memory.{update}
use libnbf.Ring.Slots.{slots_apart, update_at, update_elsewhere, grown}
use libnbf.Ring.{Ring, slot_of, in_block, push, pop}

module _ {Data : Type 0} where
  -- The elements from the tail to the head, in order; the counters have not wrapped.
  pub record Holds (r : Ring Data) (xs : List Data) : Type 0 where
    pub counted : r.head ≡ r.tail + length xs
    pub fits : length xs ≤ r.real_queue_size
    pub stands : (i : ℕ) (x : Data) → get_elem? xs i ≡ some x → r.slots (slot_of r (r.tail + i)) ≡ x

  -- The queue that the ring implements, of at most `cap` elements.
  abbrev pub queue_push : ℕ → Data → List Data → Bool × List Data
  queue_push cap x xs = if leb cap (length xs) then (false, xs) else (true, xs ++ (x ∷ []))

  abbrev pub queue_pop : List Data → Option Data × List Data
  queue_pop [] = (none, [])
  queue_pop (x ∷ xs) = (some x, xs)

  held :
      (r : Ring Data) (xs : List Data)
      → Holds r xs
      → r.head < 2 ^ 64
      → sub64 r.head r.tail ≡ length xs
  unfolding sub64
  held r xs h w = omega (arith, h.counted, w)

  pushed_on :
      (r : Ring Data) (xs : List Data) (x : Data)
      → Holds r xs
      → length xs < r.real_queue_size
      → Holds
          (record r { head = r.head + 1; slots = update r.slots (slot_of r r.head) x })
          (xs ++ (x ∷ []))
  pushed_on r xs x h room =
      let lap = r.real_queue_size + 1 in
      record {
        counted = omega (arith, length-append xs (x ∷ []), h.counted);
        fits = omega (arith, length-append xs (x ∷ []), room);
        stands = λ i y e. elim (grown xs x i y e) [
          | inl (before, at) ↦
              update_elsewhere r.slots (slot_of r r.head) (slot_of r (r.tail + i)) x (λ c.
                slots_apart r.tail i (length xs) lap before (omega (arith, room))
                  (c ∙ ap (λ z. z % lap) h.counted))
              ∙ h.stands i y at
          | inr (last, same) ↦
              let place : (r.tail + i) % lap ≡ r.head % lap =
                ap (λ z. z % lap) (omega (arith, last, h.counted)) in
              rw place (update_at r.slots (slot_of r r.head) x ∙ same)
        ];
      }

  taken_off :
      (r : Ring Data) (x : Data) (xs : List Data)
      → Holds r (x ∷ xs)
      → Holds (record r { tail = r.tail + 1 }) xs
  taken_off r x xs h = record {
    counted = omega (arith, h.counted);
    fits = omega (arith, h.fits);
    stands = λ i y e.
        let place : r.tail + 1 + i ≡ r.tail + suc i = omega arith in
        rw place (h.stands (suc i) y e);
  }

  -- The call accesses the memory behind the block.
  abbrev pub Outside : Ring Data → ℕ → Type 0
  Outside r i = slot_of r i ≡ r.real_queue_size

  Outside-of : (r : Ring Data) (i : ℕ) → in_block r i ≡ false → Outside r i
  Outside-of r i h =
      let low = mod-lt i {m = r.real_queue_size + 1} (omega arith) in ground (arith, low)

  -- A push on the ring and on the queue: outside of the block, or the same answer.
  abbrev PushHolds : Ring Data → List Data → Data → Type 0
  PushHolds r xs x =
      ((push x r ≡ none) × Outside r r.head)
      ⊎ ((r' : Ring Data) × (push x r ≡ some ((queue_push r.real_queue_size x xs).0, r'))
          × Holds r' (queue_push r.real_queue_size x xs).1
          × (r'.real_queue_size ≡ r.real_queue_size)
          × (r'.head ≤ r.head + 1)
          × (r'.tail ≡ r.tail))

  push-Holds :
      (r : Ring Data) (xs : List Data) (x : Data)
      → Holds r xs
      → r.head + 1 < 2 ^ 64
      → PushHolds r xs x
  unfolding push
  push-Holds r xs x h w =
      let size = held r xs h (omega (arith, w)) in
      elim (Bool-cases (leb r.real_queue_size (length xs))) [
        | inl full ↦ rw (size, full) (inr (r, refl, h, refl, omega arith, refl))
        | inr room ↦ elim (Bool-cases (in_block r r.head)) [
          | inl inside ↦
              let next : (r.head + 1) % 2 ^ 64 ≡ r.head + 1 = omega (arith, w) in
              rw (size, room, inside, next)
                (inr (_, refl, pushed_on r xs x h (ground arith), refl, omega arith, refl))
          | inr outside ↦ rw (size, room, outside) (inl (refl, Outside-of r r.head outside))
        ]
      ]

  abbrev PopHolds : Ring Data → List Data → Type 0
  PopHolds r xs =
      ((pop r ≡ none) × (0 < length xs) × Outside r r.tail)
      ⊎ ((r' : Ring Data) × (pop r ≡ some ((queue_pop xs).0, r'))
          × Holds r' (queue_pop xs).1
          × (r'.real_queue_size ≡ r.real_queue_size)
          × (r'.head ≡ r.head)
          × (r.tail ≤ r'.tail))

  pop-Holds : (r : Ring Data) (xs : List Data) → Holds r xs → r.head < 2 ^ 64 → PopHolds r xs
  unfolding pop
  pop-Holds r [] h w =
      let same : (r.tail == r.head) ≡ true = ground (arith, h.counted) in
      rw same (inr (r, refl, h, refl, refl, omega arith))
  pop-Holds r (x ∷ xs) h w =
      let other : (r.tail == r.head) ≡ false = ground (arith, h.counted) in
      let ahead : ltb r.head r.tail ≡ false = ground (arith, h.counted) in
      let next : (r.tail + 1) % 2 ^ 64 ≡ r.tail + 1 = omega (arith, w, h.counted) in
      let at_tail : r.tail ≡ r.tail + 0 = omega arith in
      let first = ap (λ i. r.slots (slot_of r i)) at_tail ∙ h.stands 0 x refl in
      elim (Bool-cases (in_block r r.tail)) [
        | inl inside ↦
            rw (other, ahead, inside, next)
              (inr (
                record r { tail = r.tail + 1 },
                ap (λ y. some (some y, record r { tail = r.tail + 1 })) first,
                taken_off r x xs h,
                refl,
                refl,
                omega arith,
              ))
        | inr outside ↦
            rw (other, ahead, outside) (inl (refl, omega arith, Outside-of r r.tail outside))
      ]

-- Calls of a ring, and what they return.
pub data RingCall (Data : Type 0) : Type 0 where
  push_call : Data → RingCall Data
  pop_call : RingCall Data

pub data RingResult (Data : Type 0) : Type 0 where
  pushed : Bool → RingResult Data
  popped : Option Data → RingResult Data

module _ {Data : Type 0} where
  abbrev pub and_then :
      RingResult Data → Option (List (RingResult Data)) → Option (List (RingResult Data))
  and_then x none = none
  and_then x (some rs) = some (x ∷ rs)

  -- The answers, or none where a call accesses the memory behind the block.
  abbrev pub ring_run : List (RingCall Data) → Ring Data → Option (List (RingResult Data))
  ring_run [] r = some []
  ring_run (push_call x ∷ calls) r = elim (push x r) [
    | none ↦ none
    | some (b, r') ↦ and_then (pushed b) (ring_run calls r')
  ]
  ring_run (pop_call ∷ calls) r = elim (pop r) [
    | none ↦ none
    | some (o, r') ↦ and_then (popped o) (ring_run calls r')
  ]

  abbrev pub queue_run : ℕ → List (RingCall Data) → List Data → List (RingResult Data)
  queue_run cap [] xs = []
  queue_run cap (push_call x ∷ calls) xs =
      pushed (queue_push cap x xs).0 ∷ queue_run cap calls (queue_push cap x xs).1
  queue_run cap (pop_call ∷ calls) xs =
      popped (queue_pop xs).0 ∷ queue_run cap calls (queue_pop xs).1

  -- The answers are the queue's, or the calls have come to an index behind the block: one from the tail
  -- on, below the head and the number of calls, whose slot is the size.
  abbrev pub Answers : List (RingCall Data) → Ring Data → List Data → Type 0
  Answers calls r xs =
      (ring_run calls r ≡ some (queue_run r.real_queue_size calls xs))
      ⊎ ((ring_run calls r ≡ none)
          × ((i : ℕ) × (r.tail ≤ i)
              × (i < r.head + length calls)
              × (i % (r.real_queue_size + 1) ≡ r.real_queue_size)))

  -- What the calls behind the first one come to.
  then-Answers :
      (calls : List (RingCall Data)) (r r' : Ring Data) (xs xs' : List Data) (x : RingResult Data)
      → r'.real_queue_size ≡ r.real_queue_size
      → r'.head ≤ r.head + 1
      → r.tail ≤ r'.tail
      → Answers calls r' xs'
      → (and_then x (ring_run calls r') ≡ some (x ∷ queue_run r.real_queue_size calls xs'))
        ⊎ ((and_then x (ring_run calls r') ≡ none)
            × ((i : ℕ) × (r.tail ≤ i)
                × (i < r.head + suc (length calls))
                × (i % (r.real_queue_size + 1) ≡ r.real_queue_size)))
  then-Answers calls r r' xs xs' x same up down (inl e) =
      inl (ap (and_then x) e ∙ ap (λ cap. some (x ∷ queue_run cap calls xs')) same)
  then-Answers calls r r' xs xs' x same up down (inr (e, k)) =
      let at : k.0 % (r.real_queue_size + 1) ≡ r.real_queue_size = rw same at (k.3) in
      inr (ap (and_then x) e, (k.0, omega (arith, k.1, down), omega (arith, k.2, up), at))

  -- A ring that holds the elements of a list in order, for any sequence of push and pop that does not
  -- bring the counters to 2 ^ 64: unless a call accesses the memory behind the block, the ring answers
  -- as a queue does that starts with that list, gives its elements out first in, first out, and refuses
  -- an element exactly where it holds as many as the ring's size. Where a call does, an index from the
  -- tail on, below the head and the number of calls, has the size of the ring as its slot.
  pub ring_run-queue_run :
      (calls : List (RingCall Data)) (r : Ring Data) (xs : List Data)
      → Holds r xs
      → r.head + length calls < 2 ^ 64
      → Answers calls r xs
  ring_run-queue_run [] r xs h w = inl refl
  ring_run-queue_run (push_call x ∷ calls) r xs h w =
      elim (push-Holds r xs x h (omega (arith, w))) [
        | inl (out, at) ↦
            rw (out, ring_run) (inr (refl, (r.head, omega (arith, h.counted), omega arith, at)))
        | inr (r', e, holds, same, up, tail) ↦
            rw (e, ring_run)
              (then-Answers calls r r' xs _ _ same up (omega (arith, tail))
                (ring_run-queue_run calls r' _ holds (omega (arith, w, up))))
      ]
  ring_run-queue_run (pop_call ∷ calls) r xs h w = elim (pop-Holds r xs h (omega (arith, w))) [
    | inl (out, some_left, at) ↦
        rw (out, ring_run)
          (inr (refl, (r.tail, omega arith, omega (arith, h.counted, some_left), at)))
    | inr (r', e, holds, same, head, tail) ↦
        rw (e, ring_run)
          (then-Answers calls r r' xs _ _ same (omega (arith, head)) tail
            (ring_run-queue_run calls r' _ holds (omega (arith, w, head))))
  ]
