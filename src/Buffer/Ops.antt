-- ===== src/Buffer/Ops.antt =====
-- The operations of Buffer keep its invariant; what each does to the bytes to be read.
use libnbf.Prelude.{
  ℕ, ◌+◌, ◌-◌, ◌≤◌, ◌<◌, ◌≡◌, refl, sym, ap, ◌∙◌, Bool, true, false, List, [], Option, none, some,
  arith, inl, inr, leb, Bool-cases, Option-cases, length, take, drop,
}
use libnbf.Prelude.Slices.{length-slice, length-splice, take-append_self, drop-take, drop-drop}
use libnbf.Buffer.{
  Buffer, empty, IsValid, contents, copy_to, reset_all, drain_reading, pour_writing, strip_writing,
  relocate, allocate, compact, get_reading_size, get_writing_size,
}

pub length-contents : (b : Buffer) → IsValid b → length (contents b) ≡ get_reading_size b
length-contents b v =
    length-slice b.mem b.pos_reading (b.pos_writing - b.pos_reading) (omega (arith, v))

pub empty-IsValid : IsValid empty
empty-IsValid = ground arith

pub reset_all-IsValid : {b : Buffer} → IsValid b → IsValid (reset_all b)
unfolding reset_all
reset_all-IsValid v = ground arith

drop-slice :
    (xs : List ℕ) (r w n : ℕ)
    → drop n (take (w - r) (drop r xs)) ≡ take (w - (r + n)) (drop (r + n) xs)
drop-slice xs r w n =
    drop-take n (w - r) (drop r xs)
    ∙ ap (take (w - r - n)) (drop-drop n r xs)
    ∙ (let e : w - r - n ≡ w - (r + n) = omega arith in ap (λ t. take t (drop (r + n) xs)) e)

drop-slice_past : (xs : List ℕ) (r w n : ℕ) → w ≤ r + n → drop n (take (w - r) (drop r xs)) ≡ []
drop-slice_past xs r w n h =
    drop-slice xs r w n
    ∙ (let e : w - (r + n) ≡ 0 = omega arith in ap (λ t. take t (drop (r + n) xs)) e)

-- DrainReading takes bytes off the front, and keeps the invariant.
pub drain_reading_lem :
    (n : ℕ) {b : Buffer}
    → IsValid b
    → IsValid (drain_reading n b) × (contents (drain_reading n b) ≡ drop n (contents b))
unfolding drain_reading
drain_reading_lem n {b} v = elim (Bool-cases (leb b.pos_writing (b.pos_reading + n))) [
  | inl past ↦ (
    ground arith,
    rw past (sym (drop-slice_past b.mem b.pos_reading b.pos_writing n (ground arith))),
  )
  | inr left ↦ (ground arith, rw left (sym (drop-slice b.mem b.pos_reading b.pos_writing n)))
]

pub pour_writing-IsValid : (n : ℕ) {b : Buffer} → IsValid b → IsValid (pour_writing n b).1
unfolding pour_writing
pour_writing-IsValid n v = ground arith

pub strip_writing-IsValid : (n : ℕ) {b : Buffer} → IsValid b → IsValid (strip_writing n b).1
unfolding strip_writing
strip_writing-IsValid n v = ground arith

-- The state after a move of the bytes to the front of a block that has room for them.
moved_contents :
    (block : List ℕ) (b : Buffer)
    → IsValid b
    → get_reading_size b ≤ length block
    → let mem = copy_to block 0 (contents b) in
      (take (b.pos_writing - b.pos_reading - 0) mem ≡ contents b) × (length mem ≡ length block)
moved_contents block b v h =
    let size = length-contents b v in
    (
      take-append_self (b.pos_writing - b.pos_reading - 0) (contents b) _ (omega (arith, size)),
      length-splice block (contents b) 0 (omega (arith, size)),
    )

pub compact_lem :
    {b : Buffer}
    → IsValid b
    → IsValid (compact b)
      × (contents (compact b) ≡ contents b)
      × (get_writing_size (compact b) ≡ b.pos_end - (b.pos_writing - b.pos_reading))
unfolding compact
compact_lem {b} v = let m = moved_contents b.mem b v (omega arith) in (ground (arith, m), m.0, refl)

module _ (malloc : ℕ → Option (List ℕ)) (size : ℕ) (b : Buffer) where
  relocate-none : malloc size ≡ none → relocate malloc size b ≡ (false, b)
  unfolding relocate
  relocate-none e = rw (e, relocate)

  abbrev relocated : List ℕ → Buffer
  relocated block = record {
    begin = true;
    mem = copy_to block 0 (contents b);
    pos_end = size;
    pos_reading = 0;
    pos_writing = b.pos_writing - b.pos_reading;
  }

  relocate-some :
      (block : List ℕ) → malloc size ≡ some block → relocate malloc size b ≡ (true, relocated block)
  unfolding relocate
  relocate-some block e = rw (e, relocate)

  allocate-none : malloc size ≡ none → allocate malloc size b ≡ (false, b)
  unfolding allocate
  allocate-none e = rw (e, allocate)

  abbrev allocated : List ℕ → Buffer
  allocated block = record {
    begin = true;
    mem = block;
    pos_end = size;
    pos_reading = 0;
    pos_writing = 0;
  }

  allocate-some :
      (block : List ℕ) → malloc size ≡ some block → allocate malloc size b ≡ (true, allocated block)
  unfolding allocate
  allocate-some block e = rw (e, allocate)

module _ (malloc : ℕ → Option (List ℕ))
    (sized : (n : ℕ) (block : List ℕ) → malloc n ≡ some block → length block ≡ n) where
  -- What an operation that makes room leaves: the bytes are kept, and a failure changes nothing.
  pub record Moved (size : ℕ) (b : Buffer) (r : Bool × Buffer) : Type 0 where
    pub valid : IsValid r.1
    pub kept : contents r.1 ≡ contents b
    pub room : r.0 ≡ true → get_writing_size r.1 ≡ size - get_reading_size b
    pub sized_to : r.0 ≡ true → r.1.pos_end ≡ size
    pub failed : r.0 ≡ false → (r.1 ≡ b) × (malloc size ≡ none)

  pub relocate-Moved :
      (size : ℕ) {b : Buffer}
      → IsValid b
      → 0 < size
      → get_reading_size b ≤ size
      → Moved size b (relocate malloc size b)
  relocate-Moved size {b} v pos fits = elim (Option-cases (malloc size)) [
    | inl lost ↦ rw (relocate-none malloc size b lost) (record {
      valid = v;
      kept = refl;
      room = λ h. cc;
      sized_to = λ h. cc;
      failed = λ h. (refl, lost);
    })
    | inr (block, e) ↦
        let len = sized size block e in
        let m = moved_contents block b v (omega arith) in
        rw (relocate-some malloc size b block e) (record {
          valid = ground (arith, m);
          kept = m.0;
          room = λ h. refl;
          sized_to = λ h. refl;
          failed = λ h. cc;
        })
  ]

  pub allocate-Moved :
      (size : ℕ) {b : Buffer}
      → IsValid b
      → b.begin ≡ false
      → 0 < size
      → Moved size b (allocate malloc size b)
  allocate-Moved size {b} v unset pos = elim (Option-cases (malloc size)) [
    | inl lost ↦ rw (allocate-none malloc size b lost) (record {
      valid = v;
      kept = refl;
      room = λ h. cc;
      sized_to = λ h. cc;
      failed = λ h. (refl, lost);
    })
    | inr (block, e) ↦
        let len = sized size block e in
        let none_left : 0 ≡ b.pos_writing - b.pos_reading = ground arith in
        rw (allocate-some malloc size b block e) (record {
          valid = ground arith;
          kept = ap (λ t. take t (drop b.pos_reading b.mem)) none_left;
          room = λ h. omega arith;
          sized_to = λ h. refl;
          failed = λ h. cc;
        })
  ]
