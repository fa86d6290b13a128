-- ===== src/Message.antt =====
-- src/message_base.h and src/message.h: the messages that the threads pass to one another.
-- A pointer to a message is the message; `ctx` is what a callback context holds (the callback by a
-- number that stands for it), and an id that the source sets to -1 is `none`.
use libnbf.Prelude.{ℕ, ◌-◌, ◌^◌, List, Option, none}

pub data MessageType : Type 0 where
  unknown_event heart_beat_message rapid_message http_message redis_message : MessageType

pub data IoEvent : Type 0 where
  io_unknown_event io_handle_event_msg io_active_close_event : IoEvent

pub data Direction : Type 0 where
  direction_unknown incoming_request outgoing_request incoming_response : Direction
  outgoing_response only_send send_no_care_response : Direction

pub data Status : Type 0 where
  status_ok status_timeout status_encode_fail internal_failure invoke_error : Status

pub record EventMessage : Type 0 where
  pub type_id : MessageType
  pub type_io_event : IoEvent
  pub direction : Direction
  pub status : Status
  pub sequence_id : ℕ
  pub birthtime : ℕ
  pub descriptor_id : ℕ
  pub handle_id : Option ℕ
  pub timer_out_id : ℕ
  pub ctx : Option ℕ
  pub coroutine_id : Option ℕ

-- The constructor for a type of message.
abbrev pub new_message : MessageType → EventMessage
new_message type_id = record {
  type_id = type_id;
  type_io_event = io_unknown_event;
  direction = direction_unknown;
  status = status_ok;
  sequence_id = 2 ^ 64 - 1;
  birthtime = 0;
  descriptor_id = 0;
  handle_id = none;
  timer_out_id = 0;
  ctx = none;
  coroutine_id = none;
}

pub record RapidMessage : Type 0 where
  pub event : EventMessage
  pub body : List ℕ
  pub command : ℕ

pub record RedisMessage : Type 0 where
  pub event : EventMessage
  pub bodys : List (List ℕ)
