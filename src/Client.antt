-- ===== src/Client.antt =====
-- src/client/client.h and client.cpp: a client over one connection, and what it does with a message.
-- The children are its routers. The busy flag is that of src/net/sync_client_connect.h. The threads
-- that share the counters are taken one operation at a time.
pub mod Router
pub mod Routers
use libnbf.Prelude.{
  ℕ, ◌+◌, ◌%◌, ◌^◌, Bool, true, false, not, ◌&&◌, List, [], ◌∷◌, ◌++◌, Option, none, some, ltb,
  if◌then◌else◌,
}
use libnbf.Message.{
  MessageType, unknown_event, rapid_message, heart_beat_message, http_message, redis_message,
  EventMessage, io_handle_event_msg, outgoing_request, only_send, send_no_care_response, status_ok,
  status_timeout, status_encode_fail, internal_failure, invoke_error,
}
use libnbf.Message

pub data ConnectStatus : Type 0 where
  connecting connected broken stopping : ConnectStatus

abbrev pub is_connected : ConnectStatus → Bool
is_connected connecting = false
is_connected connected = true
is_connected broken = false
is_connected stopping = false

-- A connection of a client: its address, its status, whether its class is SyncClientConnect.
pub record ClientConnect : Type 0 where
  pub address : ℕ
  pub status : ConnectStatus
  pub synchronous : Bool
  pub is_buzy : Bool

pub record Client : Type 0 where
  pub connect : Option ClientConnect
  pub sigle_send_sigle_recv : Bool

-- What becomes of a message: MessageFactory::Destroy, a callback's call, or the net thread's queue.
pub data Event : Type 0 where
  destroyed : EventMessage → Event
  called_back : (callback : ℕ) → EventMessage → Event
  to_net : EventMessage → Event

-- The counter of GetSequenceId, and the events so far.
pub record World : Type 0 where
  pub sequence_id : ℕ
  pub events : List Event

abbrev pub log : Event → World → World
log e w = record w { events = w.events ++ (e ∷ []) }

-- The thread that calls: the clock, the handler of its coroutines and the current coroutine.
pub record Caller : Type 0 where
  pub clock : ℕ
  pub handler : Option (Option ℕ)
  pub coroutine : Option ℕ

abbrev pub is_synchronous : MessageType → Bool
is_synchronous unknown_event = false
is_synchronous heart_beat_message = true
is_synchronous rapid_message = false
is_synchronous http_message = true
is_synchronous redis_message = true

-- GetClientStatus() == kWorking
abbrev pub is_working : Client → Bool
is_working c = elim c.connect [ none ↦ false | some con ↦ is_connected con.status ]

-- SetBuzy; the connection's flag for single sends is the client's.
abbrev pub set_buzy : Bool → Bool → ClientConnect → ClientConnect
set_buzy sigle buzy con = if con.synchronous && sigle then record con { is_buzy = buzy } else con

abbrev pub try_set_buzy : Bool → ClientConnect → Option ClientConnect
try_set_buzy sigle con =
    if con.synchronous && sigle
    then (if con.is_buzy then none else some (record con { is_buzy = true }))
    else some con

-- SetNoBuzy; none is a call on a null connection.
unfoldable pub set_no_buzy : Client → Option Client
set_no_buzy c =
    if c.sigle_send_sigle_recv
    then elim c.connect [
      | none ↦ none
      | some con ↦ some (record c { connect = some (set_buzy c.sigle_send_sigle_recv false con) })
    ]
    else some c

-- GetSequenceId: the number, and the counter behind it; from 2 ^ 63 on it is negative.
abbrev pub get_sequence_id : World → ℕ × World
get_sequence_id w =
    let next = if ltb w.sequence_id (2 ^ 63) then (w.sequence_id + 1) % 2 ^ 64 else 0 in
    (w.sequence_id, record w { sequence_id = next })

-- What DoSend and SendToNetThread write into a message.
abbrev pub stamped : Caller → EventMessage → EventMessage
stamped at m =
    let stamp = record m { birthtime = at.clock; type_io_event = io_handle_event_msg } in
    elim at.handler [
      | none ↦ stamp
      | some id ↦ record stamp { handle_id = id; coroutine_id = at.coroutine }
    ]

abbrev pub do_send : Caller → EventMessage → World → World
do_send at m w = log (to_net (stamped at m)) w

-- The message of Client::Send on a connection, and that of Invoke and DoSendRecieve.
abbrev pub one_way : ClientConnect → EventMessage → EventMessage
one_way con m = record m {
  descriptor_id = con.address;
  direction = if is_synchronous m.type_id then send_no_care_response else only_send;
}

abbrev pub request : ClientConnect → ℕ → EventMessage → EventMessage
request con id m = record m {
  sequence_id = id;
  descriptor_id = con.address;
  direction = outgoing_request;
}

-- The result of an operation on something with a state `S`; none is a call of a null pointer, or a
-- division by zero.
abbrev pub Ran : Type 0 → Type 0 → Type 0
Ran R S = Option (R × S × World)

-- The branch on GetClientStatus: what a working connection does, and how the message ends else.
abbrev pub with_connect :
    {R : Type 0} → R → Event → (ClientConnect → World → R × World) → Client → World → Ran R Client
with_connect {R = R} bad end act c w =
    let refused : Ran R Client = elim (set_no_buzy c) [
      | none ↦ none
      | some idle ↦ some (bad, idle, log end w)
    ] in
    elim c.connect [
      | none ↦ refused
      | some con ↦
          let done = act con w in
          if is_connected con.status then some (done.0, c, done.1) else refused
    ]

-- What Send and Invoke do on a connection that works.
abbrev pub send_on : Caller → EventMessage → ClientConnect → World → Bool × World
send_on at m con w = (true, do_send at (one_way con m) w)

abbrev pub invoke_on : Caller → EventMessage → ℕ → ClientConnect → World → Bool × World
invoke_on at m cb con w =
    let id = get_sequence_id w in
    (true, do_send at (record (request con id.0 m) { ctx = some cb }) id.1)

unfoldable pub client_send : Caller → EventMessage → Client → World → Ran Bool Client
client_send at m = with_connect false (destroyed m) (send_on at m)

unfoldable pub client_invoke : Caller → EventMessage → ℕ → Client → World → Ran Bool Client
client_invoke at m cb =
    with_connect false (called_back cb (record m { status = invoke_error })) (invoke_on at m cb)

-- What DoSendRecieve makes of the response that DoRecieve gives it.
abbrev pub take_response : Option EventMessage → World → Option EventMessage × World
take_response none w = (none, w)
take_response (some r) w = elim r.status [
  | status_ok ↦ (some r, w)
  | status_timeout ↦ (none, log (destroyed r) w)
  | status_encode_fail ↦ (none, log (destroyed r) w)
  | internal_failure ↦ (none, log (destroyed r) w)
  | invoke_error ↦ (none, log (destroyed r) w)
]

-- DoSendRecieve outside a test; the coroutine's wait for the response is the argument `recieve`.
unfoldable pub client_send_recieve :
    Caller
    → (EventMessage → Option EventMessage)
    → EventMessage
    → Client
    → World
    → Ran (Option EventMessage) Client
client_send_recieve at recieve m = with_connect none (destroyed m) (λ con w.
    let id = get_sequence_id w in
    let sent = request con id.0 m in
    take_response (recieve (stamped at sent)) (do_send at sent id.1))

unfoldable pub client_stop : Client → Client
client_stop c = record c { connect = none }
