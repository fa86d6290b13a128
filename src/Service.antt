-- ===== src/Service.antt =====
-- src/service/service_manager.cpp and service_handle.cpp: the queues of the handler threads, and what
-- ServiceHandler does with a message. The lock of a queue makes a push and a swap one step each; the
-- user's handlers and callbacks are ends. GetCurrentClockTime counts milliseconds.
pub mod Order
pub mod Coroutines
use libnbf.Prelude.{
  ℕ, zero, suc, ◌+◌, ◌-◌, ◌%◌, ◌^◌, Bool, true, false, not, ◌&&◌, List, [], ◌∷◌, ◌++◌, map, Option,
  none, some, ltb, ◌==◌, if◌then◌else◌, length, get_elem?, set, get_or,
}
use libnbf.Prelude.Memory.{update}
use libnbf.Prelude.Words.{sub64}
use libnbf.Message.{
  MessageType, unknown_event, heart_beat_message, rapid_message, http_message, redis_message,
  Direction, direction_unknown, incoming_request, outgoing_request, incoming_response,
  outgoing_response, only_send, send_no_care_response, status_ok, status_timeout,
  status_encode_fail, internal_failure, invoke_error, EventMessage,
}
use libnbf.Message

-- INNER_QUERY_SEND_PROTECT_TIME
abbrev pub protect_time : ℕ
protect_time = 100

abbrev pub is_incoming_request : Direction → Bool
is_incoming_request direction_unknown = false
is_incoming_request incoming_request = true
is_incoming_request outgoing_request = false
is_incoming_request incoming_response = false
is_incoming_request outgoing_response = false
is_incoming_request only_send = false
is_incoming_request send_no_care_response = false

abbrev pub is_ok : Message.Status → Bool
is_ok status_ok = true
is_ok status_timeout = false
is_ok status_encode_fail = false
is_ok internal_failure = false
is_ok invoke_error = false

-- What becomes of a message: MessageFactory::Destroy, the virtual functions for a request and for a
-- response, or its callback, with what MarkEnd is told before.
pub data End : Type 0 where
  destroyed : EventMessage → End
  on_request : EventMessage → End
  on_response : EventMessage → End
  called_back : (callback : ℕ) → (ok : Bool) → EventMessage → End

-- HttpResponseMessage and RapidResponseMessage, where a context has a callback.
abbrev pub response_message : EventMessage → End
response_message m = elim m.ctx [
  | none ↦ on_response m
  | some callback ↦ called_back callback (is_ok m.status) m
]

abbrev pub of_kind : EventMessage → End
of_kind m = if is_incoming_request m.direction then on_request m else response_message m

-- ServiceHandler::Handle
unfoldable pub handle : ℕ → EventMessage → End
handle now m =
    if is_incoming_request m.direction && ltb protect_time (sub64 now m.birthtime)
    then destroyed m
    else elim m.type_id [
      | unknown_event ↦ destroyed m
      | heart_beat_message ↦ destroyed m
      | rapid_message ↦ of_kind m
      | http_message ↦ of_kind m
      | redis_message ↦ destroyed m
    ]

-- service_handle_data_, as the queue of each thread, and the counter of GetServiceHandleId, which every
-- thread that sends has for itself.
pub record Handlers : Type 0 where
  pub queues : List (List EventMessage)
  pub id_hs : ℕ → ℕ

-- GetServiceHandleId on the thread `sender`, with the counters behind it.
abbrev pub get_service_handle_id : ℕ → EventMessage → Handlers → ℕ × Handlers
get_service_handle_id sender m s =
    let count = length s.queues in
    let next = (s.id_hs sender + 1) % 2 ^ 32 in
    let in_turn : ℕ × Handlers =
      (s.id_hs sender % count, record s { id_hs = update s.id_hs sender next }) in
    elim m.handle_id [ none ↦ in_turn | some id ↦ if ltb id count then (id, s) else in_turn ]

-- SendToServiceHandle on the thread `sender`
unfoldable pub send_to_service_handle : ℕ → EventMessage → Handlers → Handlers
send_to_service_handle sender m s =
    let chosen = get_service_handle_id sender m s in
    let queue = get_or chosen.1.queues chosen.0 [] in
    record chosen.1 { queues = set chosen.1.queues chosen.0 (queue ++ (m ∷ [])) }

-- The messages that the loop of Run takes out of a swapped queue and handles, each at its time.
unfoldable pub handle_all : (EventMessage → ℕ) → List EventMessage → List End
handle_all clock [] = []
handle_all clock (m ∷ ms) = handle (clock m) m ∷ handle_all clock ms

-- The swap of Run: the messages it takes out, and the queues.
unfoldable pub take_queue : ℕ → Handlers → List EventMessage × Handlers
take_queue id s = (get_or s.queues id [], record s { queues = set s.queues id [] })

-- A round of ServiceHandler::Run on the thread `id`: the swap, and the loop over what it took out.
unfoldable pub handle_round : (EventMessage → ℕ) → ℕ → Handlers → List End × Handlers
handle_round clock id s = let taken = take_queue id s in (handle_all clock taken.0, taken.1)
