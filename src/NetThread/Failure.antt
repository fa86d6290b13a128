-- ===== src/NetThread/Failure.antt =====
-- A request of a coroutine whose sending fails comes back to the thread that sent it, and ends there.
use libnbf.Prelude.{
  ℕ, ◌<◌, ◌≡◌, refl, Bool, true, false, ◌&&◌, ◌||◌, Option, some, arith, ltb, ◌==◌, Bool-cases, inl,
  inr, length,
}
use libnbf.Prelude.Words.{sub64}
use libnbf.Message.{internal_failure, EventMessage}
use libnbf.Client.{ClientConnect, Caller, request, stamped}
use libnbf.Service.{protect_time, Handlers, get_service_handle_id}
use libnbf.Service.Coroutines.{coro_destroyed, process_message}
use libnbf.NetThread.{
  sent_back, is_outgoing_request, is_only_send, handle_io_message_failed, handle_io_message_event,
  handle_io,
}

-- The message of Invoke as the net thread gets it, and as it comes back.
abbrev pub invoked : Caller → ClientConnect → ℕ → ℕ → EventMessage → EventMessage
invoked at con id cb m = stamped at (record (request con id m) { ctx = some cb })

abbrev pub failed : EventMessage → EventMessage
failed m = record m { status = internal_failure }

-- A call from a coroutine of the handler thread `h`.
abbrev pub caller_of : ℕ → ℕ → Option ℕ → Caller
caller_of clock h coroutine = record {
  clock = clock;
  handler = some (some h);
  coroutine = coroutine;
}

fails_back :
    (now : ℕ) (encode_msg : ℕ → EventMessage → Bool) (m : EventMessage)
    → is_outgoing_request m.direction ≡ true
    → encode_msg m.descriptor_id m ≡ false
    → handle_io_message_event now encode_msg m ≡ sent_back (failed m)
unfolding handle_io_message_event handle_io_message_failed
fails_back now encode_msg m out fails =
    elim (Bool-cases (
      (is_only_send m.direction || is_outgoing_request m.direction)
      && ltb protect_time (sub64 now m.birthtime))) [
        | inl late ↦ rw late (rw out refl)
        | inr in_time ↦ elim (Bool-cases (m.descriptor_id == 0)) [
          | inl nowhere ↦ rw (in_time, nowhere) (rw out refl)
          | inr somewhere ↦ rw (in_time, somewhere, fails) (rw out refl)
        ]
      ]

back_to :
    (sender h : ℕ) (m : EventMessage) (s : Handlers)
    → m.handle_id ≡ some h
    → h < length s.queues
    → get_service_handle_id sender m s ≡ (h, s)
back_to sender h m s e lt =
    let low : ltb h (length s.queues) ≡ true = ground arith in
    rw (e, get_service_handle_id) (rw low refl)

-- A message that Invoke of a coroutine has given to the net thread for a connection, and that the
-- connection fails to encode: the io thread gives it back, marked as failed, to the handler thread of the
-- coroutine, which is one of the handler threads. That thread destroys it, at whatever time and whatever
-- the coroutines wait for: its callback is not called.
pub invoke-failed :
    (now later handled_at clock sender h cb id : ℕ) (coroutine : Option ℕ) (con : ClientConnect)
    (m : EventMessage) (encode_msg send_message : ℕ → EventMessage → Bool) (s : Handlers)
    → h < length s.queues
    → encode_msg con.address (invoked (caller_of clock h coroutine) con id cb m) ≡ false
    → (handle_io now encode_msg (invoked (caller_of clock h coroutine) con id cb m)
        ≡ sent_back (failed (invoked (caller_of clock h coroutine) con id cb m)))
      × (get_service_handle_id sender (failed (invoked (caller_of clock h coroutine) con id cb m)) s
          ≡ (h, s))
      × (process_message later handled_at send_message
            (failed (invoked (caller_of clock h coroutine) con id cb m))
          ≡ coro_destroyed (failed (invoked (caller_of clock h coroutine) con id cb m)))
unfolding handle_io process_message
invoke-failed now later handled_at clock sender h cb id coroutine con m encode_msg send_message s lt
      fails =
    let m' = invoked (caller_of clock h coroutine) con id cb m in
    (fails_back now encode_msg m' refl fails, back_to sender h (failed m') s refl lt, refl)
