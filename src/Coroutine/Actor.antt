-- ===== src/Coroutine/Actor.antt =====
-- src/coroutine/coroutine_actor.cpp: the box in which a coroutine waits for the answer of its request.
-- A wait is SetWaitingId, the messages that SendMessage is given while the coroutine sleeps, and the end
-- of RecieveMessage; the timer and the switch of coroutines are left out.
use libnbf.Prelude.{
  ℕ, ◌-◌, ◌^◌, ◌≡◌, ◌≢◌, refl, ap, Bool, true, false, not, ◌&&◌, ◌||◌, List, [], ◌∷◌, ◌++◌, Option,
  none, some, arith, ◌==◌, if◌then◌else◌, Bool-cases, inl, inr,
}
use libnbf.Message.{EventMessage}

pub record CoroutineActor : Type 0 where
  pub is_waiting : Bool
  pub waiting_id : ℕ
  pub msg_list : List EventMessage

abbrev pub new_actor : CoroutineActor
new_actor = record { is_waiting = false; waiting_id = 2 ^ 64 - 1; msg_list = [] }

abbrev pub set_waiting_id : ℕ → CoroutineActor → CoroutineActor
set_waiting_id sequence_id a = record a { is_waiting = true; waiting_id = sequence_id }

-- SendMessage
unfoldable pub send_message : EventMessage → CoroutineActor → Bool × CoroutineActor
send_message m a =
    if not a.is_waiting || (a.is_waiting && not (m.sequence_id == a.waiting_id))
    then (false, a)
    else (true, record a { msg_list = a.msg_list ++ (m ∷ []); waiting_id = 2 ^ 64 - 1 })

-- The messages that are given to it in turn, and whether each was taken.
unfoldable pub send_all : List EventMessage → CoroutineActor → List Bool × CoroutineActor
send_all [] a = ([], a)
send_all (m ∷ ms) a =
    let sent = send_message m a in let rest = send_all ms sent.1 in (sent.0 ∷ rest.0, rest.1)

-- The end of RecieveMessage for a request of the id given: the answer, and what is destroyed.
unfoldable pub take_message :
    ℕ → CoroutineActor → Option EventMessage × List EventMessage × CoroutineActor
take_message sequence_id a =
    let awake = record a { is_waiting = false; waiting_id = 2 ^ 64 - 1 } in
    elim a.msg_list [
      | [] ↦ (none, [], awake)
      | m ∷ ms ↦
          let left = record awake { msg_list = ms } in
          if sequence_id == m.sequence_id then (some m, [], left) else (none, m ∷ [], left)
    ]

-- The first message that answers the request, and the flags with that one alone set.
abbrev pub first_answer : ℕ → List EventMessage → Option EventMessage
first_answer id [] = none
first_answer id (m ∷ ms) =
    let rest = first_answer id ms in if m.sequence_id == id then some m else rest

abbrev pub none_taken : List EventMessage → List Bool
none_taken [] = []
none_taken (m ∷ ms) = false ∷ none_taken ms

abbrev pub first_taken : ℕ → List EventMessage → List Bool
first_taken id [] = []
first_taken id (m ∷ ms) =
    let rest = first_taken id ms in
    if m.sequence_id == id then true ∷ none_taken ms else false ∷ rest

-- Every message has a sequence id that was given out.
abbrev pub AllNumbered : List EventMessage → Type 0
AllNumbered [] = Unit
AllNumbered (m ∷ ms) = (m.sequence_id ≢ 2 ^ 64 - 1) × AllNumbered ms

abbrev waiting_for : ℕ → List EventMessage → CoroutineActor
waiting_for id held = record { is_waiting = true; waiting_id = id; msg_list = held }

-- Once an answer has been taken, no message is.
send_all-served :
    (ms held : List EventMessage)
    → AllNumbered ms
    → send_all ms (waiting_for (2 ^ 64 - 1) held) ≡ (none_taken ms, waiting_for (2 ^ 64 - 1) held)
unfolding send_all send_message
send_all-served [] held n = refl
send_all-served (m ∷ ms) held n =
    let other : (m.sequence_id == 2 ^ 64 - 1) ≡ false = ground (arith, n.0) in
    rw other (ap (λ r. (false ∷ r.0, r.1)) (send_all-served ms held n.1))

-- What the box holds once all messages have come.
abbrev served : Option EventMessage → ℕ → CoroutineActor
served none id = waiting_for id []
served (some m) id = waiting_for (2 ^ 64 - 1) (m ∷ [])

send_all-waiting :
    (id : ℕ) (ms : List EventMessage)
    → AllNumbered ms
    → send_all ms (waiting_for id []) ≡ (first_taken id ms, served (first_answer id ms) id)
unfolding send_all send_message
send_all-waiting id [] n = refl
send_all-waiting id (m ∷ ms) n = elim (Bool-cases (m.sequence_id == id)) [
  | inl mine ↦ rw mine (ap (λ r. (true ∷ r.0, r.1)) (send_all-served ms (m ∷ []) n.1))
  | inr other ↦ rw other (ap (λ r. (false ∷ r.0, r.1)) (send_all-waiting id ms n.1))
]

abbrev Answers : ℕ → Option EventMessage → Type 0
Answers id none = Unit
Answers id (some m) = (id == m.sequence_id) ≡ true

first_answer-Answers : (id : ℕ) (ms : List EventMessage) → Answers id (first_answer id ms)
first_answer-Answers id [] = tt
first_answer-Answers id (m ∷ ms) = elim (Bool-cases (m.sequence_id == id)) [
  | inl mine ↦ rw mine (ground arith)
  | inr other ↦ rw other (first_answer-Answers id ms)
]

take_message-served :
    (id : ℕ) (o : Option EventMessage)
    → Answers id o
    → take_message id (served o id) ≡ (o, [], new_actor)
unfolding take_message
take_message-served id none e = refl
take_message-served id (some m) e = rw e refl

-- A wait of an idle coroutine for the answer to a request, where the messages that are sent to it while
-- it sleeps all have a sequence id other than -1: SendMessage takes the first one with the id of the
-- request and refuses all others, before and after it; RecieveMessage then returns that message, or
-- nothing if there was none, destroys no message, and leaves the coroutine idle.
pub take_message-send_all :
    (id : ℕ) (ms : List EventMessage)
    → AllNumbered ms
    → ((send_all ms (set_waiting_id id new_actor)).0 ≡ first_taken id ms)
      × (take_message id (send_all ms (set_waiting_id id new_actor)).1
          ≡ (first_answer id ms, [], new_actor))
take_message-send_all id ms n =
    rw (send_all-waiting id ms n)
      (refl, take_message-served id (first_answer id ms) (first_answer-Answers id ms))
