-- ===== src/Service/Coroutines.antt =====
-- src/service/coroutine_service_handle.cpp: what the thread of a CoroutineServiceHandler does with the
-- messages that it takes out of its queue.
use libnbf.Prelude.{ℕ, Bool, not, none, some, ltb, if◌then◌else◌}
use libnbf.Prelude.Words.{sub64}
use libnbf.Message.{EventMessage}
use libnbf.Service.{End, protect_time, is_incoming_request, is_ok, handle}

-- MessageFactory::Destroy; Handle, with what it comes to; or the coroutine that has got the message in
-- its box and goes on.
pub data CoroEnd : Type 0 where
  coro_destroyed : EventMessage → CoroEnd
  coro_handled : End → CoroEnd
  coro_resumed : (coroutine : ℕ) → EventMessage → CoroEnd

-- ProcessClientItem; `send_message` is what SendMessage of a coroutine's actor returns.
unfoldable pub process_client_item : (ℕ → EventMessage → Bool) → EventMessage → CoroEnd
process_client_item send_message m = elim m.coroutine_id [
  | none ↦ coro_destroyed m
  | some coroutine ↦ if send_message coroutine m then coro_resumed coroutine m else coro_destroyed m
]

-- ProcessMessageHandle for one message. `now` is the clock of its check, `handled_at` that of Handle.
unfoldable pub process_message :
    (now handled_at : ℕ) → (ℕ → EventMessage → Bool) → EventMessage → CoroEnd
process_message now handled_at send_message m =
    if not (is_ok m.status)
    then coro_destroyed m
    else if is_incoming_request m.direction
    then (if ltb protect_time (sub64 now m.birthtime)
        then coro_destroyed m
        else coro_handled (handle handled_at m))
    else process_client_item send_message m
