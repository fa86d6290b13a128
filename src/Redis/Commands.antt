-- ===== src/Redis/Commands.antt =====
-- src/protocol/redis/redis_parser.cpp, ParseCmd, and redis_protocol.cpp: Decode, Encode and the
-- heartbeat over the buffer.
use libnbf.Prelude.{
  ℕ, zero, suc, ◌+◌, ◌*◌, Bool, true, false, not, ◌||◌, List, [], ◌∷◌, ◌++◌, Option, none, some,
  ltb, ◌==◌, if◌then◌else◌, length, take, drop,
}
use libnbf.Prelude.Clib.{print_unsigned}
use libnbf.Message.{new_message, MessageType, redis_message, heart_beat_message, RedisMessage}
use libnbf.Buffer
use libnbf.Buffer.{Buffer, contents}
use libnbf.Redis.{sep, cr, lf, Reply, reply_ok, reply_error, reply_rest, reply_overrun, parse_reply}

-- in.find(kSep, follower), on the bytes from `follower` on and counted from there.
unfoldable pub find_sep : List ℕ → Option ℕ
find_sep [] = none
find_sep (x ∷ xs) =
    let rest : Option ℕ = elim (find_sep xs) [ none ↦ none | some i ↦ some (i + 1) ] in
    if x == sep then some 0 else rest

-- "$", the length, and the segment, each line with its "\r\n".
unfoldable pub segment : List ℕ → List ℕ
segment seg = 36 ∷ (print_unsigned (length seg) ++ (cr ∷ lf ∷ (seg ++ (cr ∷ lf ∷ []))))

abbrev pub with_segment : List ℕ → Option (ℕ × List ℕ) → Option (ℕ × List ℕ)
with_segment seg none = none
with_segment seg (some (n, rest)) = some (n + 1, segment seg ++ rest)

-- The loop of ParseCmd on what is left of `in`: how many segments it appends, and their text. `none`
-- is the return of false.
unfoldable pub split_cmd : ℕ → List ℕ → Option (ℕ × List ℕ)
split_cmd zero cmd = some (0, [])
split_cmd (suc fuel) cmd = elim (find_sep cmd) [
  | none ↦ if length cmd == 0 then some (0, []) else with_segment cmd (some (0, []))
  | some zero ↦ none
  | some (suc i) ↦ with_segment (take (suc i) cmd) (split_cmd fuel (drop (suc i + 1) cmd))
]

abbrev pub with_count : Option (ℕ × List ℕ) → Option (List ℕ)
with_count none = none
with_count (some (n, text)) = some (42 ∷ (print_unsigned n ++ (cr ∷ lf ∷ text)))

unfoldable pub parse_cmd : List ℕ → Option (List ℕ)
parse_cmd cmd = if length cmd == 0 then none else with_count (split_cmd (length cmd) cmd)

-- The request that Encode builds from the bodies.
unfoldable pub request_of : List (List ℕ) → Option (List ℕ)
request_of [] = some []
request_of (body ∷ bodies) = elim (parse_cmd body) [
  | none ↦ none
  | some one ↦ elim (request_of bodies) [ none ↦ none | some rest ↦ some (one ++ rest) ]
]

abbrev pub is_redis : MessageType → Bool
is_redis redis_message = true
is_redis t = false

module _ (malloc : ℕ → Option (List ℕ)) where
  -- RedisProtocol::Encode. `none` means that the growth of the buffer does not end.
  unfoldable pub encode : RedisMessage → Buffer → Option (Bool × Buffer)
  unfolding is_redis
  encode msg output =
      if not (is_redis msg.event.type_id) || (length msg.bodys == 0)
      then some (false, output)
      else elim (request_of msg.bodys) [
        | none ↦ some (false, output)
        | some request ↦ elim (Buffer.ensure_size malloc (length request) output) [
          | none ↦ none
          | some (false, out) ↦ some (false, out)
          | some (true, out) ↦
              some (Buffer.pour_writing (length request) (Buffer.put_at_writing request out))
        ]
      ]

unfoldable pub heart_beat_request : RedisMessage
heart_beat_request = record { event = new_message heart_beat_message; bodys = [] }

-- What the loop of Decode ends with: a reply is not complete, a reply is wrong, a read past the
-- string, or the size read, the pong flag of the last reply and the bodies.
pub data Loop : Type 0 where
  loop_rest : Loop
  loop_error : Loop
  loop_overrun : Loop
  loop_done : (size : ℕ) → (is_pong : Bool) → (bodies : List (List ℕ)) → Loop

-- One round: what ParseReply returned, and the loop on the rest of the text.
unfoldable pub next_reply :
    Reply → List ℕ → ℕ → List (List ℕ) → (List ℕ → ℕ → List (List ℕ) → Option Loop) → Option Loop
next_reply reply_error reply size bodies again = some loop_error
next_reply reply_rest reply size bodies again = some loop_rest
next_reply reply_overrun reply size bodies again = some loop_overrun
next_reply (reply_ok n is_pong out) reply size bodies again =
    let rest = drop n reply in
    let more = again rest (size + n) (bodies ++ (out ∷ [])) in
    if length rest == 0 then some (loop_done (size + n) is_pong (bodies ++ (out ∷ []))) else more

-- `none` means that the fuel ran out.
unfoldable pub decode_loop : ℕ → List ℕ → ℕ → List (List ℕ) → Option Loop
decode_loop zero reply size bodies = none
decode_loop (suc fuel) reply size bodies =
    next_reply (parse_reply reply) reply size bodies (decode_loop fuel)

abbrev pub max_size_allowed : ℕ
max_size_allowed = 8 * 1024 * 1024

-- What Decode does: the message, `failed` and the buffer; a read past the text; fuel that ran out.
pub data Decoded : Type 0 where
  decoded : (msg : Option RedisMessage) → (failed : Bool) → (input : Buffer) → Decoded
  decoded_overrun : Decoded
  decoded_stuck : Decoded

-- Decode at what the loop ended with.
unfoldable pub finish : Buffer → Bool → Option Loop → Decoded
finish input failed none = decoded_stuck
finish input failed (some loop_rest) = decoded none failed input
finish input failed (some loop_error) = decoded none false (Buffer.reset_all input)
finish input failed (some loop_overrun) = decoded_overrun
finish input failed (some (loop_done size is_pong bodies)) =
    decoded
      (if is_pong
        then none
        else some (record { event = new_message redis_message; bodys = bodies }))
      failed (Buffer.drain_reading size input)

-- RedisProtocol::Decode, where the message can be allocated.
unfoldable pub decode : Buffer → Bool → Decoded
decode input failed =
    let size = Buffer.get_reading_size input in
    if size == 0
    then decoded none failed input
    else if ltb max_size_allowed size
    then decoded none false (Buffer.reset_all input)
    else finish input failed (decode_loop size (contents input) 0 [])
