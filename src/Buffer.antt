-- ===== src/Buffer.antt =====
-- src/common/buffer.h and src/common/buffer.cpp: the growing byte buffer between the sockets and
-- the codecs. The four pointers are offsets from `pos_begin_`; `begin` says whether that pointer
-- is set, and `mem` is the block that it points to.
pub mod Grow
pub mod Ops
pub mod Ensure
pub mod Write
pub mod Find
use libnbf.Prelude.{
  ℕ, zero, suc, ◌+◌, ◌-◌, ◌*◌, ◌%◌, ◌^◌, ◌≤◌, ◌<◌, ◌≡◌, Bool, true, false, not, ◌&&◌, ◌||◌, List,
  [], ◌∷◌, ◌++◌, Option, none, some, ltb, leb, ◌==◌, if◌then◌else◌, length, take, drop,
}
use libnbf.Prelude.Words.{sub64, mul64}

pub record Buffer : Type 0 where
  pub begin : Bool
  pub mem : List ℕ
  pub pos_end : ℕ
  pub pos_reading : ℕ
  pub pos_writing : ℕ

-- The constructor.
abbrev pub empty : Buffer
empty = record { begin = false; mem = []; pos_end = 0; pos_reading = 0; pos_writing = 0 }

-- memcpy to an offset of the block.
abbrev pub copy_to : List ℕ → ℕ → List ℕ → List ℕ
copy_to mem pos data' = take pos mem ++ (data' ++ drop (pos + length data') mem)

-- The `n` bytes from an offset of the block on.
abbrev pub slice : List ℕ → ℕ → ℕ → List ℕ
slice mem pos n = take n (drop pos mem)

abbrev pub get_reading_size : Buffer → ℕ
get_reading_size b = b.pos_writing - b.pos_reading

abbrev pub get_writing_size : Buffer → ℕ
get_writing_size b = b.pos_end - b.pos_writing

-- GetReading, up to the writing position.
abbrev pub contents : Buffer → List ℕ
contents b = slice b.mem b.pos_reading (b.pos_writing - b.pos_reading)

unfoldable pub reset_all : Buffer → Buffer
reset_all b = record b { pos_reading = 0; pos_writing = 0 }

unfoldable pub drain_reading : ℕ → Buffer → Buffer
unfolding reset_all
drain_reading len b =
    let moved = record b { pos_reading = b.pos_reading + len } in
    if leb b.pos_writing (b.pos_reading + len) then reset_all moved else moved

unfoldable pub pour_writing : ℕ → Buffer → Bool × Buffer
pour_writing len b =
    if leb (b.pos_writing + len) b.pos_end
    then (true, record b { pos_writing = b.pos_writing + len })
    else (false, b)

unfoldable pub strip_writing : ℕ → Buffer → Bool × Buffer
strip_writing len b =
    if leb (b.pos_reading + len) b.pos_writing
    then (true, record b { pos_writing = b.pos_writing - len })
    else (false, b)

unfoldable pub destroy_all : Buffer → Buffer
destroy_all b = if b.begin then empty else b

-- `while (size - used < need) size <<= 1`; `none` means that the fuel ran out.
unfoldable pub grow : ℕ → ℕ → ℕ → ℕ → Option ℕ
grow zero size used need = none
grow (suc fuel) size used need =
    let rest = grow fuel (mul64 size 2) used need in
    if ltb (sub64 size used) need then rest else some size

-- The block after FindBytes' offset `i` begins with the pattern.
unfoldable pub starts_with : List ℕ → List ℕ → Bool
starts_with [] xs = true
starts_with (p ∷ ps) [] = false
starts_with (p ∷ ps) (x ∷ xs) = p == x && starts_with ps xs

-- The rounds of FindBytes from offset `i` on, `n` of them left; `none` stands for -1. The first
-- byte's test before memcmp changes no result, and stands here as it does there.
unfoldable pub find_from : ℕ → ℕ → ℕ → List ℕ → List ℕ → Option ℕ
find_from zero i p₀ pattern' bytes = none
find_from (suc n) i p₀ pattern' bytes =
    let rest = find_from n (i + 1) p₀ pattern' bytes in
    if starts_with (p₀ ∷ []) (drop i bytes) && starts_with pattern' (drop i bytes)
    then some i
    else rest

-- `int dLen = pos_writing_ - pos_reading_ - len`: the low 32 bits of the difference.
unfoldable pub find_limit : ℕ → Buffer → ℕ
find_limit len b = (get_reading_size b + 2 ^ 64 - len) % 2 ^ 32

-- FindBytes at a start that is not negative. `dLen` of 2 ^ 31 or more is a negative int, and then no
-- round is made.
unfoldable pub find_bytes : List ℕ → ℕ → Buffer → Option ℕ
find_bytes [] from b = none
find_bytes (p ∷ ps) from b =
    let d_len = find_limit (length (p ∷ ps)) b in
    let rounds = if ltb d_len (2 ^ 31) then d_len + 1 - from else 0 in
    find_from rounds from p (p ∷ ps) (contents b)

-- memcpy to the writing position, which stays where it is.
unfoldable pub put_at_writing : List ℕ → Buffer → Buffer
put_at_writing data' b = record b { mem = copy_to b.mem b.pos_writing data' }

-- memcpy to the writing position, and past it.
unfoldable pub store : List ℕ → Buffer → Buffer
store data' b = record b {
  mem = copy_to b.mem b.pos_writing data';
  pos_writing = b.pos_writing + length data';
}

-- memmove to the front of the block.
unfoldable pub compact : Buffer → Buffer
compact b = record b {
  mem = copy_to b.mem 0 (contents b);
  pos_reading = 0;
  pos_writing = b.pos_writing - b.pos_reading;
}

-- malloc: the new block with whatever bytes it holds, or no block.
module _ (malloc : ℕ → Option (List ℕ)) where
  -- A new block of `size` bytes that takes over what is to be read.
  unfoldable pub relocate : ℕ → Buffer → Bool × Buffer
  relocate size b = elim (malloc size) [
    | none ↦ (false, b)
    | some block ↦ (
      true,
      record {
        begin = true;
        mem = copy_to block 0 (contents b);
        pos_end = size;
        pos_reading = 0;
        pos_writing = b.pos_writing - b.pos_reading;
      },
    )
  ]

  -- The first allocation of EnsureSize.
  unfoldable pub allocate : ℕ → Buffer → Bool × Buffer
  allocate size b = elim (malloc size) [
    | none ↦ (false, b)
    | some block ↦ (
      true,
      record { begin = true; mem = block; pos_end = size; pos_reading = 0; pos_writing = 0 },
    )
  ]

  -- `none` means that a doubling loop does not end.
  unfoldable pub ensure_size : ℕ → Buffer → Option (Bool × Buffer)
  ensure_size need b =
      if not b.begin
      then elim (grow 64 256 0 need) [ none ↦ none | some len ↦ some (allocate len b) ]
      else if leb (b.pos_writing + need) b.pos_end
      then some (true, b)
      else (let flen = (b.pos_end - b.pos_writing) + b.pos_reading in
          let dlen = b.pos_writing - b.pos_reading in
          if ltb flen need || ltb (flen * 4) dlen
          then (elim (grow 64 (mul64 b.pos_end 2) dlen need) [
            | none ↦ none
            | some bufsize ↦ some (relocate bufsize b)
          ])
          else some (true, compact b))

  unfoldable pub write : List ℕ → Buffer → Option (Bool × Buffer)
  write data' b =
      if leb (b.pos_writing + length data') b.pos_end
      then some (true, store data' b)
      else elim (ensure_size (length data') b) [
        | none ↦ none
        | some (true, c) ↦ some (true, store data' c)
        | some (false, c) ↦ some (false, c)
      ]

  unfoldable pub shrink_space : ℕ → Buffer → Bool × Buffer
  shrink_space max_size b =
      if not b.begin
      then (true, b)
      else if ltb b.pos_end max_size
      then (true, b)
      else if ltb (b.pos_reading + max_size) b.pos_writing
      then (true, b)
      else relocate max_size b

-- The pointers are in order and inside the block, and an allocated block is not empty.
pub record IsValid (b : Buffer) : Type 0 where
  pub block : b.pos_end ≡ length b.mem
  pub reading : b.pos_reading ≤ b.pos_writing
  pub writing : b.pos_writing ≤ b.pos_end
  pub unset : b.begin ≡ false → b.pos_end ≡ 0
  pub nonempty : b.begin ≡ true → 0 < b.pos_end
