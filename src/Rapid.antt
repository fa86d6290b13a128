-- ===== src/Rapid.antt =====
-- src/protocol/rapid/rapid_protocol.cpp: the rapid protocol's frames, a head of 16 bytes in network
-- order and a body.
pub mod Bytes
pub mod RoundTrip
pub mod Encode
use libnbf.Prelude.{
  ℕ, ◌+◌, ◌-◌, ◌*◌, ◌/◌, ◌%◌, ◌^◌, Bool, true, false, ◌&&◌, ◌||◌, not, List, [], ◌∷◌, ◌++◌, Option,
  none, some, ltb, ◌==◌, if◌then◌else◌, length, take, drop, get_or,
}
use libnbf.Message.{
  EventMessage, new_message, MessageType, rapid_message, heart_beat_message, RapidMessage,
}
use libnbf.Buffer
use libnbf.Buffer.{Buffer, contents, get_reading_size}

abbrev pub magic : ℕ
magic = 11111

abbrev pub max_version : ℕ
max_version = 10

-- sizeof(RapidHead)
abbrev pub head_size : ℕ
head_size = 16

pub record RapidHead : Type 0 where
  pub magic : ℕ
  pub version : ℕ
  pub cmd : ℕ
  pub sqid_high : ℕ
  pub sqid_low : ℕ
  pub size : ℕ

-- The bytes of htons and htonl as they lie in memory.
abbrev pub be16 : ℕ → List ℕ
be16 v = (v / 256 % 256) ∷ (v % 256) ∷ []

abbrev pub be32 : ℕ → List ℕ
be32 v = (v / 2 ^ 24 % 256) ∷ (v / 2 ^ 16 % 256) ∷ (v / 256 % 256) ∷ (v % 256) ∷ []

abbrev pub read16 : List ℕ → ℕ → ℕ
read16 data' i = get_or data' i 0 * 256 + get_or data' (i + 1) 0

abbrev pub read32 : List ℕ → ℕ → ℕ
read32 data' i =
    get_or data' i 0 * 2 ^ 24
    + get_or data' (i + 1) 0 * 2 ^ 16
    + get_or data' (i + 2) 0 * 256
    + get_or data' (i + 3) 0

-- Int64To32: the high word and the low word.
abbrev pub int64_to_32 : ℕ → ℕ × ℕ
int64_to_32 value = (value / 2 ^ 32 % 2 ^ 32, value % 2 ^ 32)

-- Int32To64. The low word is below 2 ^ 32, so `|` is `+`.
abbrev pub int32_to_64 : ℕ → ℕ → ℕ
int32_to_64 high low = high * 2 ^ 32 + low

-- The head as Encode lays it out.
unfoldable pub head_bytes : RapidHead → List ℕ
head_bytes h =
    be16 h.magic ++ (h.version ∷ h.cmd ∷ (be32 h.sqid_high ++ (be32 h.sqid_low ++ be32 h.size)))

-- The head as Decode reads it.
unfoldable pub read_head : List ℕ → RapidHead
read_head data' = record {
  magic = read16 data' 0;
  version = get_or data' 2 0;
  cmd = get_or data' 3 0;
  sqid_high = read32 data' 4;
  sqid_low = read32 data' 8;
  size = read32 data' 12;
}

-- The head that Encode fills in for a message.
unfoldable pub head_of : RapidMessage → RapidHead
head_of msg =
    let (high, low) = int64_to_32 msg.event.sequence_id in
    record {
      magic = magic;
      version = 0;
      cmd = msg.command % 256;
      sqid_high = high;
      sqid_low = low;
      size = head_size + length msg.body;
    }

-- What Encode puts into the output buffer.
abbrev pub frame : RapidMessage → List ℕ
frame msg = head_bytes (head_of msg) ++ msg.body

-- The message that Decode allocates.
unfoldable pub message_of : RapidHead → List ℕ → RapidMessage
message_of h body = record {
  event = record (new_message rapid_message) { sequence_id = int32_to_64 h.sqid_high h.sqid_low };
  body = body;
  command = h.cmd;
}

-- RapidProtocol::Decode: the message if there is one, the flag `failed`, and the input buffer.
unfoldable pub decode : Buffer → Bool → Option RapidMessage × Bool × Buffer
decode input failed =
    let total = get_reading_size input in
    let data' = contents input in
    let header = read_head data' in
    let size = header.size in
    let drained =
      if ltb (30 * 1024 * 1024) total then Buffer.drain_reading total input else input in
    if ltb total head_size
    then (none, failed, input)
    else if not (header.magic == magic) || ltb max_version header.version
    then (none, true, Buffer.reset_all input)
    else if ltb total size || ltb size head_size
    then (none, true, drained)
    else (
      some (message_of header (take (size - head_size) (drop head_size data'))),
      failed,
      Buffer.drain_reading size input,
    )

is_rapid : MessageType → Bool
is_rapid rapid_message = true
is_rapid _ = false

module _ (malloc : ℕ → Option (List ℕ)) where
  -- RapidProtocol::Encode, at a message that is a RapidMessage where its type says so.
  unfoldable pub encode : RapidMessage → Buffer → Option (Bool × Buffer)
  unfolding is_rapid
  encode msg output =
      let size = head_size + length msg.body in
      if not (is_rapid msg.event.type_id)
      then some (false, output)
      else if length msg.body == 0 && msg.command == 0
      then some (false, output)
      else elim (Buffer.ensure_size malloc size output) [
        | none ↦ none
        | some (false, out) ↦ some (false, out)
        | some (true, out) ↦ some (Buffer.pour_writing size (Buffer.put_at_writing (frame msg) out))
      ]

-- RapidProtocol::HeartBeatRequest
unfoldable pub heart_beat_request : RapidMessage
heart_beat_request = record { event = new_message heart_beat_message; body = []; command = 0 }
