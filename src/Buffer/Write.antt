-- ===== src/Buffer/Write.antt =====
-- Buffer::Write and Buffer::ShrinkSpace.
use libnbf.Prelude.{
  ℕ, ◌+◌, ◌-◌, ◌^◌, ◌≤◌, ◌<◌, ◌≡◌, refl, ◌∙◌, ap, Bool, Cases, true, false, List, ◌++◌, Option,
  some, arith, inl, inr, ltb, leb, Bool-cases, length, ◌⊎◌,
}
use libnbf.Prelude.Slices.{slice-splice, length-splice}
use libnbf.Buffer.{
  Buffer, IsValid, contents, relocate, ensure_size, store, write, shrink_space, get_reading_size,
}
use libnbf.Buffer.Ops.{relocate-Moved, Moved}
use libnbf.Buffer.Ensure.{ensure_size-Ensured}

-- Storing past the writing position, where there is room, appends to the bytes to be read.
pub store_lem :
    (d : List ℕ) {b : Buffer}
    → IsValid b
    → b.pos_writing + length d ≤ b.pos_end
    → IsValid (store d b) × (contents (store d b) ≡ contents b ++ d)
unfolding store
store_lem d {b} v room = (
  ground (arith, length-splice b.mem d b.pos_writing),
  slice-splice b.mem d b.pos_reading b.pos_writing v.reading (omega (arith, v)),
)

pub record Written (d : List ℕ) (b : Buffer) (r : Option (Bool × Buffer)) : Type 0 where
  pub result : Bool × Buffer
  pub ends : r ≡ some result
  pub valid : IsValid result.1
  pub outcome : Cases (contents result.1 ≡ contents b ++ d) (result.1 ≡ b) result.0

module _ (malloc : ℕ → Option (List ℕ))
    (sized : (n : ℕ) (block : List ℕ) → malloc n ≡ some block → length block ≡ n) where
  pub write-fits :
      (d : List ℕ) (b : Buffer)
      → leb (b.pos_writing + length d) b.pos_end ≡ true
      → write malloc d b ≡ some (true, store d b)
  unfolding write
  write-fits d b e = simp e

  write-ensured :
      (d : List ℕ) (b c : Buffer)
      → leb (b.pos_writing + length d) b.pos_end ≡ false
      → ensure_size malloc (length d) b ≡ some (true, c)
      → write malloc d b ≡ some (true, store d c)
  unfolding write
  write-ensured d b c e f = simp (e, f)

  write-failed :
      (d : List ℕ) (b c : Buffer)
      → leb (b.pos_writing + length d) b.pos_end ≡ false
      → ensure_size malloc (length d) b ≡ some (false, c)
      → write malloc d b ≡ some (false, c)
  unfolding write
  write-failed d b c e f = simp (e, f)

  write_after :
      (d : List ℕ) {b : Buffer} (ok : Bool) (c : Buffer)
      → leb (b.pos_writing + length d) b.pos_end ≡ false
      → ensure_size malloc (length d) b ≡ some (ok, c)
      → IsValid c
      → contents c ≡ contents b
      → Cases (length d ≤ c.pos_end - c.pos_writing) (c ≡ b) ok
      → Written d b (write malloc d b)
  write_after d {b} true c tight e v kept outcome =
      let s = store_lem d v (omega (arith, outcome)) in
      rw (write-ensured d b c tight e) (record {
        result = (true, store d c);
        ends = refl;
        valid = s.0;
        outcome = s.1 ∙ ap (λ t. t ++ d) kept;
      })
  write_after d {b} false c tight e v kept outcome =
      rw (write-failed d b c tight e)
        (record { result = (false, c); ends = refl; valid = v; outcome = outcome })

  -- With at most 2 ^ 62 bytes in reach, Write ends, keeps the invariant, appends exactly its data to
  -- the bytes to be read if it returns true, and changes nothing if it returns false.
  pub write-Written :
      (d : List ℕ) {b : Buffer}
      → IsValid b
      → get_reading_size b + length d ≤ 2 ^ 62
      → b.pos_end ≤ 2 ^ 62
      → Written d b (write malloc d b)
  write-Written d {b} v small bounded =
      elim (Bool-cases (leb (b.pos_writing + length d) b.pos_end)) [
        | inl fits ↦
            let s = store_lem d v (ground arith) in
            rw (write-fits d b fits)
              (record { result = (true, store d b); ends = refl; valid = s.0; outcome = s.1 })
        | inr tight ↦
            let e = ensure_size-Ensured malloc sized (length d) v small bounded in
            write_after d e.result.0 e.result.1 tight e.ends e.valid e.kept e.outcome
      ]

  abbrev pub Fits : ℕ → Buffer → Type 0
  Fits max_size b = (b.begin ≡ true) × (max_size ≤ b.pos_end) × (get_reading_size b ≤ max_size)

  Moved-outcome :
      (size : ℕ) {b : Buffer} (r : Bool × Buffer)
      → Moved malloc sized size b r
      → Cases (r.1.pos_end ≡ size) (r.1 ≡ b) r.0
  Moved-outcome size (true, c) m = m.sized_to refl
  Moved-outcome size (false, c) m = (m.failed refl).0

  -- ShrinkSpace does nothing, or moves to a new block, exactly when the bytes fit.
  shrink_cases :
      (max_size : ℕ) (b : Buffer)
      → ((shrink_space malloc max_size b ≡ (true, b)) × ¬ (Fits max_size b))
        ⊎ ((shrink_space malloc max_size b ≡ relocate malloc max_size b) × Fits max_size b)
  unfolding shrink_space
  shrink_cases max_size b = elim (Bool-cases b.begin) [
    | inr unset ↦ inl (simp unset, λ f. cc (f.0))
    | inl set ↦ elim (Bool-cases (ltb b.pos_end max_size)) [
      | inl small ↦ inl (simp (set, small), λ f. ground arith)
      | inr large ↦ elim (Bool-cases (ltb (b.pos_reading + max_size) b.pos_writing)) [
        | inl full ↦ inl (simp (set, large, full), λ f. ground arith)
        | inr fits ↦ inr (simp (set, large, fits), (set, ground arith, ground arith))
      ]
    ]
  ]

  -- For a limit above 0 ShrinkSpace keeps the invariant and the bytes to be read. Exactly where the
  -- block is at least as large as the limit and the bytes fit in it, it asks for a block of the
  -- limit, and has that block if it returns true and the old one if it returns false; else it returns
  -- true and changes nothing.
  pub shrink_space_lem :
      (max_size : ℕ) {b : Buffer}
      → IsValid b
      → 0 < max_size
      → let r = shrink_space malloc max_size b in
        IsValid r.1
        × (contents r.1 ≡ contents b)
        × (((r ≡ (true, b)) × ¬ (Fits max_size b))
            ⊎ (Fits max_size b × Cases (r.1.pos_end ≡ max_size) (r.1 ≡ b) r.0))
  shrink_space_lem max_size {b} v pos = elim (shrink_cases max_size b) [
    | inl (stays, out) ↦ rw stays (v, refl, inl (refl, out))
    | inr (moves, fits) ↦
        let m = relocate-Moved malloc sized max_size v pos fits.2 in
        rw moves
          (m.valid, m.kept, inr (fits, Moved-outcome max_size (relocate malloc max_size b) m))
  ]
