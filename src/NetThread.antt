-- ===== src/NetThread.antt =====
-- src/net_thread_mgr/io_thread_data_run.cpp and io_threads.cpp: what an io thread does with a message,
-- and which thread gets it. A connection is its address; its EncodeMsg is an argument, true for 0.
pub mod Failure
use libnbf.Prelude.{
  ℕ, ◌+◌, ◌%◌, ◌^◌, Bool, true, false, not, ◌&&◌, ◌||◌, List, Option, none, some, ltb, ◌==◌,
  if◌then◌else◌,
}
use libnbf.Prelude.Words.{sub64}
use libnbf.Message.{
  IoEvent, io_unknown_event, io_handle_event_msg, io_active_close_event, Direction,
  direction_unknown, incoming_request, outgoing_request, incoming_response, outgoing_response,
  only_send, send_no_care_response, internal_failure, EventMessage,
}
use libnbf.Service.{protect_time}

abbrev pub is_outgoing_request : Direction → Bool
is_outgoing_request direction_unknown = false
is_outgoing_request incoming_request = false
is_outgoing_request outgoing_request = true
is_outgoing_request incoming_response = false
is_outgoing_request outgoing_response = false
is_outgoing_request only_send = false
is_outgoing_request send_no_care_response = false

abbrev pub is_only_send : Direction → Bool
is_only_send direction_unknown = false
is_only_send incoming_request = false
is_only_send outgoing_request = false
is_only_send incoming_response = false
is_only_send outgoing_response = false
is_only_send only_send = true
is_only_send send_no_care_response = false

abbrev pub is_outgoing_response : Direction → Bool
is_outgoing_response direction_unknown = false
is_outgoing_response incoming_request = false
is_outgoing_response outgoing_request = false
is_outgoing_response incoming_response = false
is_outgoing_response outgoing_response = true
is_outgoing_response only_send = false
is_outgoing_response send_no_care_response = false

-- What becomes of a message: MessageFactory::Destroy, before or without a call of OnWrite; the
-- connection keeps it, with OnWrite; SendToServiceHandle; or the close of a connection.
pub data NetEnd : Type 0 where
  destroyed : EventMessage → NetEnd
  destroyed_and_written : (con : ℕ) → EventMessage → NetEnd
  kept_and_written : (con : ℕ) → EventMessage → NetEnd
  sent_back : EventMessage → NetEnd
  destroyed_and_closed : (con : ℕ) → EventMessage → NetEnd

-- HandleIoMessageFailed
unfoldable pub handle_io_message_failed : EventMessage → NetEnd
handle_io_message_failed m =
    if is_outgoing_request m.direction
    then sent_back (record m { status = internal_failure })
    else destroyed m

-- HandleIoMessageEvent
unfoldable pub handle_io_message_event : ℕ → (ℕ → EventMessage → Bool) → EventMessage → NetEnd
handle_io_message_event now encode_msg m =
    if (is_only_send m.direction || is_outgoing_request m.direction)
      && ltb protect_time (sub64 now m.birthtime)
    then handle_io_message_failed m
    else if m.descriptor_id == 0
    then handle_io_message_failed m
    else if not (encode_msg m.descriptor_id m)
    then handle_io_message_failed m
    else if is_only_send m.direction || is_outgoing_response m.direction
    then destroyed_and_written m.descriptor_id m
    else kept_and_written m.descriptor_id m

unfoldable pub handle_io_active_close_event : EventMessage → NetEnd
handle_io_active_close_event m =
    if m.descriptor_id == 0 then destroyed m else destroyed_and_closed m.descriptor_id m

-- IoThreadDataRun::Handle
unfoldable pub handle_io : ℕ → (ℕ → EventMessage → Bool) → EventMessage → NetEnd
handle_io now encode_msg m = elim m.type_io_event [
  | io_unknown_event ↦ destroyed m
  | io_handle_event_msg ↦ handle_io_message_event now encode_msg m
  | io_active_close_event ↦ handle_io_active_close_event m
]

-- PutMessageToHandle: the io thread of a message, and the counter behind it.
unfoldable pub io_thread_of : ℕ → EventMessage → ℕ → ℕ × ℕ
io_thread_of size m id_io =
    if m.descriptor_id == 0
    then (id_io % size, (id_io + 1) % 2 ^ 32)
    else (m.descriptor_id % size, id_io)
