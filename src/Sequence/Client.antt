-- ===== src/Sequence/Client.antt =====
-- src/net/async_client_connect.cpp: what comes of an answer. The fields of a message that waits stand
-- in `store` under its address; new contexts, the clock and the connection's address are arguments.
use libnbf.Prelude.{ℕ, ◌≡◌, refl, Bool, true, false, Option, none, some, if◌then◌else◌, ◌==◌, arith}
use libnbf.Message.{EventMessage, MessageType, heart_beat_message, status_ok, incoming_response}
use libnbf.Sequence.{AsyncSequence, get}

-- What OnDecodeMessage does with a message: it drops it, takes it for the answer to a heartbeat, or
-- sends it to the service.
pub data Delivery : Type 0 where
  not_found : Delivery
  heart_beat : Delivery
  sent : (message : EventMessage) → Delivery

abbrev pub is_heart_beat : MessageType → Bool
is_heart_beat heart_beat_message = true
is_heart_beat t = false

module _ {T : Type 0} (start_timer : ℕ → T → ℕ × T) (cancel : ℕ → T → T) (sequence_id : ℕ → ℕ)
    (has_thread : Bool) (store : ℕ → EventMessage) (has_callback : ℕ → Bool) (new_ctx : ℕ → ℕ)
    (now self : ℕ) where
  -- The context that the message gets from the one that was kept.
  abbrev pub ctx_of : Option ℕ → Option ℕ → Option ℕ
  ctx_of none own = own
  ctx_of (some ctx) own = if has_callback ctx then some (new_ctx ctx) else own

  -- The message with what the kept one knows.
  unfoldable pub answer_to : EventMessage → EventMessage → EventMessage
  answer_to keeper message = record message {
    birthtime = now;
    status = status_ok;
    direction = incoming_response;
    sequence_id = keeper.sequence_id;
    coroutine_id = keeper.coroutine_id;
    handle_id = keeper.handle_id;
    descriptor_id = self;
    ctx = ctx_of keeper.ctx message.ctx;
  }

  -- OnDecodeMessage
  unfoldable pub on_decode_message : EventMessage → AsyncSequence T → Delivery × AsyncSequence T
  unfolding is_heart_beat
  on_decode_message message s =
      let got = get start_timer cancel sequence_id has_thread message.sequence_id s in
      (
        elim got.0 [
          | none ↦ not_found
          | some keeper ↦
              if is_heart_beat (store keeper).type_id
              then heart_beat
              else sent (answer_to (store keeper) message)
        ],
        got.1,
      )

  get-clears :
      (id : ℕ) (s : AsyncSequence T)
      → (get start_timer cancel sequence_id has_thread id s).1.registery id ≡ none
  unfolding get
  get-clears id s = at (s.registery id) refl
    where
      at :
          (r : Option ℕ)
          → s.registery id ≡ r
          → (get start_timer cancel sequence_id has_thread id s).1.registery id ≡ none
      at none f = rw (f, get) f
      at (some m) f = let same : (id == id) ≡ true = ground arith in rw (f, get) (rw same refl)

  unknown :
      (message : EventMessage) (s : AsyncSequence T)
      → s.registery message.sequence_id ≡ none
      → (on_decode_message message s).0 ≡ not_found
  unfolding on_decode_message get
  unknown message s f = rw (f, on_decode_message, get) refl

  -- An answer is taken at most once: whatever OnDecodeMessage did with a message, a second one with
  -- the same sequence id straight after it finds nothing and is dropped.
  pub on_decode_message-once :
      (first second : EventMessage) (s : AsyncSequence T)
      → second.sequence_id ≡ first.sequence_id
      → (on_decode_message second (on_decode_message first s).1).0 ≡ not_found
  unfolding on_decode_message
  on_decode_message-once first second s e =
      unknown second (on_decode_message first s).1 (rw e (get-clears first.sequence_id s))
