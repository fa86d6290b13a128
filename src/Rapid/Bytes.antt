-- ===== src/Rapid/Bytes.antt =====
-- The head that Decode reads is the head that Encode wrote.
use libnbf.Prelude.{
  ℕ, ◌+◌, ◌*◌, ◌%◌, ◌/◌, ◌^◌, ◌<◌, ◌≡◌, refl, List, ◌++◌, arith, length, length-append, drop,
}
use libnbf.Message.{RapidMessage}
use libnbf.Rapid.{RapidHead, head_bytes, read_head, head_of, head_size, frame}

pub length-head_bytes : (h : RapidHead) → length (head_bytes h) ≡ head_size
unfolding head_bytes
length-head_bytes h = refl

pub drop-head_bytes : (h : RapidHead) (rest : List ℕ) → drop head_size (head_bytes h ++ rest) ≡ rest
unfolding head_bytes
drop-head_bytes h rest = refl

-- Every field of the head fits its width.
pub record IsHead (h : RapidHead) : Type 0 where
  pub magic_fits : h.magic < 2 ^ 16
  pub high_fits : h.sqid_high < 2 ^ 32
  pub low_fits : h.sqid_low < 2 ^ 32
  pub size_fits : h.size < 2 ^ 32

be16_lem : (v : ℕ) → v < 2 ^ 16 → (v / 256 % 256) * 256 + v % 256 ≡ v
be16_lem v h = omega arith

be32_lem :
    (v : ℕ)
    → v < 2 ^ 32
    → (v / 2 ^ 24 % 256) * 2 ^ 24 + (v / 2 ^ 16 % 256) * 2 ^ 16 + (v / 256 % 256) * 256 + v % 256
      ≡ v
be32_lem v h = omega arith

pub read_head-head_bytes :
    (h : RapidHead) (rest : List ℕ) → IsHead h → read_head (head_bytes h ++ rest) ≡ h
unfolding read_head head_bytes
read_head-head_bytes h rest f = λ i. record {
  magic = be16_lem h.magic f.magic_fits i;
  version = h.version;
  cmd = h.cmd;
  sqid_high = be32_lem h.sqid_high f.high_fits i;
  sqid_low = be32_lem h.sqid_low f.low_fits i;
  size = be32_lem h.size f.size_fits i;
}

-- A message that the wire can carry whole.
pub record IsSendable (m : RapidMessage) : Type 0 where
  pub sequence : m.event.sequence_id < 2 ^ 64
  pub command : m.command < 256
  pub size : head_size + length m.body < 2 ^ 32

pub head_of-IsHead : (m : RapidMessage) → IsSendable m → IsHead (head_of m)
unfolding head_of
head_of-IsHead m s = record {
  magic_fits = omega arith;
  high_fits = omega arith;
  low_fits = omega arith;
  size_fits = s.size;
}

pub length-frame : (m : RapidMessage) → length (frame m) ≡ head_size + length m.body
length-frame m =
    omega (arith, length-append (head_bytes (head_of m)) m.body, length-head_bytes (head_of m))

pub sequence_lem : (v : ℕ) → v < 2 ^ 64 → (v / 2 ^ 32 % 2 ^ 32) * 2 ^ 32 + v % 2 ^ 32 ≡ v
sequence_lem v h = omega arith
