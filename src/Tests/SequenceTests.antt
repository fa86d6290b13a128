-- ===== src/Tests/SequenceTests.antt =====
-- src/net/async_sequence.cpp and sync_sequence.cpp with two messages, whose timers are numbered.
use libnbf.Prelude.{
  ℕ, ◌+◌, ◌-◌, if◌then◌else◌, ◌==◌, inl, inr, ◌≡◌, refl, true, [], ◌∷◌, some, none, arith, map,
}
use libnbf.Sequence.{AsyncSequence, SyncSequence, put, get, clean_sequence_queue, internal_failure}
use libnbf.Sequence.Matched.{
  IsMatched, Puts, Gets, put-Puts, get-Gets, clean_sequence_queue-answers,
}
use libnbf.Message.{EventMessage, new_message, rapid_message, status_ok, incoming_response}
use libnbf.Sequence.Client.{on_decode_message, answer_to, not_found, sent, on_decode_message-once}
use libnbf.Buffer
use libnbf.Buffer.{Buffer}
use libnbf.Sequence.Send.{encode_msg, encode_msg-IsMatched}
use libnbf.Sequence.Queue.{put_all, get_all, get_all-put_all}

-- The timers are counted, and a cancelled one stays.
abbrev start : ℕ → ℕ → ℕ × ℕ
start sequence_id t = (t + 1, t + 1)

abbrev cancel : ℕ → ℕ → ℕ
cancel id t = t

-- A message's address is 100 above its sequence id.
abbrev id_of : ℕ → ℕ
id_of m = m - 100

abbrev none_waiting : AsyncSequence ℕ
none_waiting = record { registery = λ id. none; list = []; timer_out_id = λ m. 0; timers = 0 }

abbrev one_waiting : AsyncSequence ℕ
one_waiting = record {
  registery = λ id. if id == 7 then some 107 else none;
  list = 107 ∷ [];
  timer_out_id = λ m. 1;
  timers = 1;
}

one_waiting-IsMatched : IsMatched id_of one_waiting
one_waiting-IsMatched = record {
  keyed = λ id m e. ground arith;
  listed = λ m e. ground arith;
  known = λ m i. elim i [ inl e ↦ rw e refl | inr n ↦ absurd n ];
}

put_run : Puts start cancel id_of true 108 one_waiting (put start cancel id_of true 108 one_waiting)
put_run = put-Puts start cancel id_of true one_waiting 108 one_waiting-IsMatched

get-Gets_example :
    Gets start cancel id_of true 7 one_waiting (get start cancel id_of true 7 one_waiting)
get-Gets_example = get-Gets start cancel id_of true one_waiting 7 one_waiting-IsMatched

clean_sequence_queue-answers_run :
    let cleaned = clean_sequence_queue start cancel id_of true one_waiting in
    (cleaned.0 ≡ map internal_failure (107 ∷ []))
    × IsMatched id_of cleaned.1
    × ((get start cancel id_of true 7 cleaned.1).0 ≡ none)
clean_sequence_queue-answers_run =
    clean_sequence_queue-answers start cancel id_of true one_waiting 7

abbrev waiting : SyncSequence ℕ
waiting = record { list = 107 ∷ []; timer_out_id = λ m. 1; timers = 1 }

get_all-put_all_example :
    let put = put_all start cancel id_of true (108 ∷ 109 ∷ []) waiting in
    ((get_all start cancel id_of true 1 put).0 ≡ 107 ∷ [])
    × ((get_all start cancel id_of true 2 (get_all start cancel id_of true 1 put).1).0
        ≡ 108 ∷ 109 ∷ [])
    × ((get_all start cancel id_of true 2 (get_all start cancel id_of true 1 put).1).1.list ≡ [])
get_all-put_all_example = get_all-put_all start cancel id_of true (108 ∷ 109 ∷ []) waiting

abbrev stored : ℕ → EventMessage
stored m = record (new_message rapid_message) { sequence_id = m - 100; handle_id = some 3 }

abbrev answer : EventMessage
answer = record (new_message rapid_message) { sequence_id = 7 }

-- The answer to the message that waits, twice.
on_decode_message-once_example :
    (on_decode_message start cancel id_of true stored
      (λ c. true)
      (λ c. c)
      1000
      5
      answer
      (on_decode_message start cancel id_of true stored
        (λ c. true)
        (λ c. c)
        1000
        5
        answer
        one_waiting).1).0
    ≡ not_found
on_decode_message-once_example =
    on_decode_message-once start cancel id_of true stored (λ c. true) (λ c. c) 1000 5 answer answer
      one_waiting refl

first_answer :
    (on_decode_message start cancel id_of true stored
      (λ c. true)
      (λ c. c)
      1000
      5
      answer
      one_waiting).0
    ≡ sent (record answer {
      birthtime = 1000;
      status = status_ok;
      direction = incoming_response;
      handle_id = some 3;
      descriptor_id = 5;
    })
unfolding on_decode_message get answer_to
first_answer = refl

-- Encode leaves the output as it is here.
encode_msg_run :
    IsMatched id_of
      (encode_msg start cancel id_of true stored
        (λ m b. (true, b))
        true
        108
        Buffer.empty
        one_waiting).2
encode_msg_run =
    encode_msg-IsMatched start cancel id_of true stored (λ m b. (true, b)) true 108 Buffer.empty
      one_waiting one_waiting-IsMatched
