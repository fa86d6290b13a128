-- ===== src/Tests/ServiceTests.antt =====
-- src/service and the box of a coroutine on concrete inputs.
use libnbf.Prelude.{
  ℕ, zero, suc, inl, ◌≡◌, refl, get_or, List, [], ◌∷◌, Option, none, some, true, false, arith,
}
use libnbf.Message.{
  EventMessage, new_message, rapid_message, redis_message, incoming_request, incoming_response,
}
use libnbf.Service.{destroyed, on_request, called_back, handle, get_service_handle_id}
use libnbf.Client.{ClientConnect, connected}
use libnbf.NetThread.{handle_io, sent_back}
use libnbf.NetThread.Failure.{invoked, failed, caller_of, invoke-failed}
use libnbf.Service.Coroutines.{coro_destroyed, process_message}
use libnbf.Service.Order.{Work, send, run, Log, work_all, IsOrdered, work_all-IsOrdered}
use libnbf.Coroutine.Actor.{
  AllNumbered, new_actor, set_waiting_id, send_all, take_message, first_answer, first_taken,
  take_message-send_all,
}

abbrev asked : EventMessage
asked = record (new_message rapid_message) { direction = incoming_request; birthtime = 1000 }

in_time : handle 1100 asked ≡ on_request asked
unfolding handle libnbf.Prelude.Words.sub64
in_time = refl

too_late : handle 1101 asked ≡ destroyed asked
unfolding handle libnbf.Prelude.Words.sub64
too_late = refl

abbrev answer : EventMessage
answer = record (new_message rapid_message) {
  direction = incoming_response;
  sequence_id = 8;
  handle_id = some 1;
  ctx = some 30;
}

answered : handle 0 answer ≡ called_back 30 true answer
unfolding handle
answered = refl

-- The answer of a redis server is destroyed, and its callback is not called.
redis_lost :
    handle 0 (record answer { type_id = redis_message })
    ≡ destroyed (record answer { type_id = redis_message })
unfolding handle
redis_lost = refl

abbrev idle : Log
idle = record {
  handlers = record { queues = [] ∷ [] ∷ []; id_hs = λ thread. 0 };
  sent = λ id. [];
  ends = λ id. [];
}

empty_queue : (id : ℕ) → get_or idle.handlers.queues id [] ≡ []
empty_queue zero = refl
empty_queue (suc zero) = refl
empty_queue (suc (suc id)) = refl

idle-IsOrdered : IsOrdered idle
idle-IsOrdered = record { waiting = λ id. ([], empty_queue id, tt); some_thread = omega arith }

abbrev works : List Work
works = send 0 asked ∷ send 7 answer ∷ run (λ m. 1100) 1 ∷ send 0 asked ∷ run (λ m. 1200) 0 ∷ []

work_all-IsOrdered_example : IsOrdered (work_all works idle)
work_all-IsOrdered_example = work_all-IsOrdered works idle idle-IsOrdered

abbrev arrived : List EventMessage
arrived = record answer { sequence_id = 7 } ∷ answer ∷ answer ∷ []

arrived-AllNumbered : AllNumbered arrived
arrived-AllNumbered = (omega arith, (omega arith, (omega arith, tt)))

take_message-send_all_example :
    ((send_all arrived (set_waiting_id 8 new_actor)).0 ≡ first_taken 8 arrived)
    × (take_message 8 (send_all arrived (set_waiting_id 8 new_actor)).1
        ≡ (first_answer 8 arrived, [], new_actor))
take_message-send_all_example = take_message-send_all 8 arrived arrived-AllNumbered

-- A message that Invoke gives to the net thread, and a connection that fails to encode it.
abbrev con : ClientConnect
con = record { address = 640; status = connected; synchronous = false; is_buzy = false }

invoke-failed_example :
    (handle_io 50 (λ c m. false) (invoked (caller_of 0 1 none) con 9 30 asked)
      ≡ sent_back (failed (invoked (caller_of 0 1 none) con 9 30 asked)))
    × (get_service_handle_id 5 (failed (invoked (caller_of 0 1 none) con 9 30 asked)) idle.handlers
        ≡ (1, idle.handlers))
    × (process_message 70 71 (λ c m. true) (failed (invoked (caller_of 0 1 none) con 9 30 asked))
        ≡ coro_destroyed (failed (invoked (caller_of 0 1 none) con 9 30 asked)))
invoke-failed_example =
    invoke-failed 50 70 71 0 5 1 30 9 none con asked (λ c m. false) (λ c m. true) idle.handlers
      (omega arith) refl
