-- ===== src/Tests/BufferTests.antt =====
-- src/common/buffer.cpp on concrete inputs.
use libnbf.Prelude.{
  ℕ, ◌≡◌, refl, Cases, ◌⊎◌, true, List, [], ◌∷◌, Option, some, arith, length, replicate,
  length-replicate,
}
use libnbf.Buffer
use libnbf.Buffer.{Buffer, IsValid, contents, get_reading_size}
use libnbf.Buffer.Ops.{drain_reading_lem}
use libnbf.Buffer.Ensure.{Ensured, ensure_size-Ensured}
use libnbf.Buffer.Write.{Written, write-Written, shrink_space_lem, Fits}
use libnbf.Buffer.Find.{find_bytes-IsFirst, IsFirst}

-- A malloc that never fails and clears its blocks.
abbrev pub zeroed : ℕ → Option (List ℕ)
zeroed n = some (replicate n 0)

pub zeroed_sized : (n : ℕ) (block : List ℕ) → zeroed n ≡ some block → length block ≡ n
zeroed_sized n block e = ground (arith, length-replicate {A = ℕ} n 0)

-- Five bytes to be read in a block of eight.
abbrev sample : Buffer
sample = record {
  begin = true;
  mem = 9 ∷ 1 ∷ 2 ∷ 1 ∷ 2 ∷ 3 ∷ 0 ∷ 0 ∷ [];
  pos_end = 8;
  pos_reading = 1;
  pos_writing = 6;
}

sample-IsValid : IsValid sample
sample-IsValid = record {
  block = refl;
  reading = omega arith;
  writing = omega arith;
  unset = λ h. cc;
  nonempty = λ h. omega arith;
}

drain_runs : contents (Buffer.drain_reading 2 sample) ≡ 1 ∷ 2 ∷ 3 ∷ []
unfolding Buffer.drain_reading
drain_runs = refl

ensure_size-Ensured_example : Ensured 3 sample (Buffer.ensure_size zeroed 3 sample)
ensure_size-Ensured_example =
    ensure_size-Ensured zeroed zeroed_sized 3 sample-IsValid (omega arith) (omega arith)

write-Written_example :
    Written (7 ∷ 8 ∷ 9 ∷ []) sample (Buffer.write zeroed (7 ∷ 8 ∷ 9 ∷ []) sample)
write-Written_example =
    write-Written zeroed zeroed_sized (7 ∷ 8 ∷ 9 ∷ []) sample-IsValid (omega arith) (omega arith)

drain_reading_run :
    IsValid (Buffer.drain_reading 2 sample)
    × (contents (Buffer.drain_reading 2 sample) ≡ 1 ∷ 2 ∷ 3 ∷ [])
drain_reading_run = drain_reading_lem 2 sample-IsValid

shrink_space_run :
    let r = Buffer.shrink_space zeroed 6 sample in
    IsValid r.1
    × (contents r.1 ≡ contents sample)
    × (((r ≡ (true, sample)) × ¬ (Fits zeroed zeroed_sized 6 sample))
        ⊎ (Fits zeroed zeroed_sized 6 sample × Cases (r.1.pos_end ≡ 6) (r.1 ≡ sample) r.0))
shrink_space_run = shrink_space_lem zeroed zeroed_sized 6 sample-IsValid (omega arith)

-- The pattern 1 2 3 stands at offset 2.
find_runs : Buffer.find_bytes (1 ∷ 2 ∷ 3 ∷ []) 0 sample ≡ some 2
unfolding Buffer.find_bytes Buffer.find_limit Buffer.find_from Buffer.starts_with
find_runs = refl

find_bytes-IsFirst_example :
    IsFirst 1 (2 ∷ 3 ∷ []) 0 (contents sample) (Buffer.find_bytes (1 ∷ 2 ∷ 3 ∷ []) 0 sample)
find_bytes-IsFirst_example =
    find_bytes-IsFirst 1 (2 ∷ 3 ∷ []) 0 sample-IsValid (omega arith) (omega arith)
