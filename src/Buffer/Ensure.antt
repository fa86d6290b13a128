-- ===== src/Buffer/Ensure.antt =====
-- Buffer::EnsureSize: every branch, with the bound under which its loops end.
use libnbf.Prelude.{
  ℕ, ◌+◌, ◌-◌, ◌*◌, ◌^◌, ◌≤◌, ◌≡◌, refl, Bool, Cases, true, false, List, Option, some, arith, inl,
  inr, ltb, leb, Bool-cases, length, ◌||◌,
}
use libnbf.Prelude.Words.{mul64}
use libnbf.Buffer.{
  Buffer, IsValid, contents, relocate, allocate, compact, ensure_size, get_reading_size,
  get_writing_size, grow,
}
use libnbf.Buffer.Grow.{grow_ends, mul64-two}
use libnbf.Buffer.Ops.{compact_lem, Moved, relocate-Moved, allocate-Moved}

-- What EnsureSize leaves: it ends, keeps the bytes, has the room if it says so, and changes nothing
-- if it fails.
pub record Ensured (need : ℕ) (b : Buffer) (r : Option (Bool × Buffer)) : Type 0 where
  pub result : Bool × Buffer
  pub ends : r ≡ some result
  pub valid : IsValid result.1
  pub kept : contents result.1 ≡ contents b
  pub outcome : Cases (need ≤ get_writing_size result.1) (result.1 ≡ b) result.0

module _ (malloc : ℕ → Option (List ℕ)) (need : ℕ) (b : Buffer) where
  ensure-unset :
      (size : ℕ)
      → b.begin ≡ false
      → grow 64 256 0 need ≡ some size
      → ensure_size malloc need b ≡ some (allocate malloc size b)
  unfolding ensure_size
  ensure-unset size e g = simp (e, g)

  ensure-fits :
      b.begin ≡ true
      → leb (b.pos_writing + need) b.pos_end ≡ true
      → ensure_size malloc need b ≡ some (true, b)
  unfolding ensure_size
  ensure-fits e f = simp (e, f)

  abbrev needs_block : Bool
  needs_block =
      ltb (b.pos_end - b.pos_writing + b.pos_reading) need
      || ltb ((b.pos_end - b.pos_writing + b.pos_reading) * 4) (b.pos_writing - b.pos_reading)

  ensure-grows :
      (size : ℕ)
      → b.begin ≡ true
      → leb (b.pos_writing + need) b.pos_end ≡ false
      → needs_block ≡ true
      → grow 64 (mul64 b.pos_end 2) (b.pos_writing - b.pos_reading) need ≡ some size
      → ensure_size malloc need b ≡ some (relocate malloc size b)
  unfolding ensure_size
  ensure-grows size e f n g = simp (e, f, n, g)

  ensure-compacts :
      b.begin ≡ true
      → leb (b.pos_writing + need) b.pos_end ≡ false
      → needs_block ≡ false
      → ensure_size malloc need b ≡ some (true, compact b)
  unfolding ensure_size
  ensure-compacts e f n = simp (e, f, n)

module _ (malloc : ℕ → Option (List ℕ))
    (sized : (n : ℕ) (block : List ℕ) → malloc n ≡ some block → length block ≡ n) (need : ℕ)
    {b : Buffer} (v : IsValid b) where
  Moved-Ensured :
      (size : ℕ) (r : Bool × Buffer)
      → Moved malloc sized size b r
      → get_reading_size b + need ≤ size
      → Ensured need b (some r)
  Moved-Ensured size (true, c) m h = record {
    result = (true, c);
    ends = refl;
    valid = m.valid;
    kept = m.kept;
    outcome = omega (arith, m.room refl);
  }
  Moved-Ensured size (false, c) m h = record {
    result = (false, c);
    ends = refl;
    valid = m.valid;
    kept = m.kept;
    outcome = (m.failed refl).0;
  }

  ensure_unset : b.begin ≡ false → need ≤ 2 ^ 62 → Ensured need b (ensure_size malloc need b)
  ensure_unset unset small =
      let g = grow_ends 63 256 0 need (omega arith) (omega arith) (omega arith) (omega arith) in
      rw (ensure-unset malloc need b g.result unset g.ends) (
        Moved-Ensured g.result (allocate malloc g.result b)
          (allocate-Moved malloc sized g.result v unset (omega (arith, g.larger)))
          (ground (arith, g.room)))

  ensure_fits :
      b.begin ≡ true
      → leb (b.pos_writing + need) b.pos_end ≡ true
      → Ensured need b (ensure_size malloc need b)
  ensure_fits set fits =
      rw (ensure-fits malloc need b set fits)
        (record { result = (true, b); ends = refl; valid = v; kept = refl; outcome = ground arith })

  ensure_grows :
      b.begin ≡ true
      → leb (b.pos_writing + need) b.pos_end ≡ false
      → needs_block malloc need b ≡ true
      → get_reading_size b + need ≤ 2 ^ 62
      → b.pos_end ≤ 2 ^ 62
      → Ensured need b (ensure_size malloc need b)
  ensure_grows set tight big small bounded =
      let pos = v.nonempty set in
      let twice = mul64-two b.pos_end (omega arith) in
      let g =
        grow_ends 63 (mul64 b.pos_end 2) (get_reading_size b) need (omega arith) (omega arith) small
          (omega arith) in
      rw (ensure-grows malloc need b g.result set tight big g.ends) (
        Moved-Ensured g.result (relocate malloc g.result b)
          (relocate-Moved malloc sized g.result v (omega (arith, g.larger))
            (omega (arith, g.larger)))
          g.room)

  ensure_compacts :
      b.begin ≡ true
      → leb (b.pos_writing + need) b.pos_end ≡ false
      → needs_block malloc need b ≡ false
      → Ensured need b (ensure_size malloc need b)
  ensure_compacts set tight enough =
      let c = compact_lem v in
      rw (ensure-compacts malloc need b set tight enough) (record {
        result = (true, compact b);
        ends = refl;
        valid = c.0;
        kept = c.1;
        outcome = ground (arith, c.2);
      })

  -- For a need and a capacity of at most 2 ^ 62, EnsureSize ends on every branch, keeps the
  -- invariant and the bytes to be read, has room for `need` bytes if it returns true, and changes
  -- nothing if it returns false.
  pub ensure_size-Ensured :
      get_reading_size b + need ≤ 2 ^ 62
      → b.pos_end ≤ 2 ^ 62
      → Ensured need b (ensure_size malloc need b)
  ensure_size-Ensured small bounded = elim (Bool-cases b.begin) [
    | inl set ↦ elim (Bool-cases (leb (b.pos_writing + need) b.pos_end)) [
      | inl fits ↦ ensure_fits set fits
      | inr tight ↦ elim (Bool-cases (needs_block malloc need b)) [
        | inl big ↦ ensure_grows set tight big small bounded
        | inr enough ↦ ensure_compacts set tight enough
      ]
    ]
    | inr unset ↦ ensure_unset unset (omega arith)
  ]
