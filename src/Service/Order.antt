-- ===== src/Service/Order.antt =====
-- The threads of ServiceHandler handle their messages once and in the order in which they were sent.
use native.Mathlib.Nat.{mod-lt}
use libnbf.Prelude.{
  ℕ, zero, suc, ◌<◌, ◌≡◌, ◌≢◌, refl, ap, sym, ◌∙◌, List, [], ◌∷◌, ◌++◌, append-nil, append_assoc,
  Option, none, some, ltb, ◌==◌, ◌&&◌, arith, Bool-cases, inl, inr, length, set, get_or, length-set,
}
use libnbf.Prelude.Memory.{update}
use libnbf.Prelude.Words.{sub64}
use libnbf.Message.{
  MessageType, unknown_event, heart_beat_message, rapid_message, http_message, redis_message,
  EventMessage,
}
use libnbf.Service.{
  End, destroyed, on_request, on_response, called_back, protect_time, is_incoming_request,
  response_message, of_kind, handle, Handlers, get_service_handle_id, send_to_service_handle,
  handle_all, take_queue, handle_round,
}

-- What threads do with the queues: one sends a message, or a handler thread does a round of
-- ServiceHandler::Run, where `clock` tells the time at which it handles a message.
pub data Work : Type 0 where
  send : (sender : ℕ) → EventMessage → Work
  run : (clock : EventMessage → ℕ) → (id : ℕ) → Work

-- The queues, and for each handler thread the messages sent to it and the ends it has brought about.
pub record Log : Type 0 where
  pub handlers : Handlers
  pub sent : ℕ → List EventMessage
  pub ends : ℕ → List End

abbrev pub work : Work → Log → Log
work (send sender m) l =
    let id = (get_service_handle_id sender m l.handlers).0 in
    record l {
      handlers = send_to_service_handle sender m l.handlers;
      sent = update l.sent id (l.sent id ++ (m ∷ []));
    }
work (run clock id) l = record l {
  handlers = (handle_round clock id l.handlers).1;
  ends = update l.ends id (l.ends id ++ (handle_round clock id l.handlers).0);
}

abbrev pub work_all : List Work → Log → Log
work_all [] l = l
work_all (x ∷ xs) l = work_all xs (work x l)

-- The message of an end.
abbrev pub message_in : End → EventMessage
message_in (destroyed m) = m
message_in (on_request m) = m
message_in (on_response m) = m
message_in (called_back callback ok m) = m

-- Each message has come to one end, which is that of Handle at some time.
abbrev pub Handled : List EventMessage → List End → Type 0
Handled [] [] = Unit
Handled [] (e ∷ es) = ⊥
Handled (m ∷ ms) [] = ⊥
Handled (m ∷ ms) (e ∷ es) = ((now : ℕ) × (e ≡ handle now m) × (message_in e ≡ m)) × Handled ms es

-- What was sent to a thread is what has come to the ends, and behind it what waits in the queue.
abbrev pub Stands : List End → List EventMessage → List EventMessage → Type 0
Stands ends queue sent = (done : List EventMessage) × (done ++ queue ≡ sent) × Handled done ends

pub record IsOrdered (l : Log) : Type 0 where
  pub waiting : (id : ℕ) → Stands (l.ends id) (get_or l.handlers.queues id []) (l.sent id)
  pub some_thread : 0 < length l.handlers.queues

response-message :
    (o : Option ℕ) (m : EventMessage)
    → message_in (response_message (record m { ctx = o })) ≡ record m { ctx = o }
response-message none m = refl
response-message (some callback) m = refl

of_kind-message : (m : EventMessage) → message_in (of_kind m) ≡ m
of_kind-message m = elim (Bool-cases (is_incoming_request m.direction)) [
  | inl request ↦ rw request refl
  | inr response ↦ rw response (response-message m.ctx m)
]

type-message :
    (t : MessageType) (m : EventMessage)
    → message_in (elim t as (λ t'. End) [
      | unknown_event ↦ destroyed m
      | heart_beat_message ↦ destroyed m
      | rapid_message ↦ of_kind m
      | http_message ↦ of_kind m
      | redis_message ↦ destroyed m
    ])
      ≡ m
type-message unknown_event m = refl
type-message heart_beat_message m = refl
type-message rapid_message m = of_kind-message m
type-message http_message m = of_kind-message m
type-message redis_message m = refl

handle-message : (now : ℕ) (m : EventMessage) → message_in (handle now m) ≡ m
unfolding handle
handle-message now m =
    elim (Bool-cases
      (is_incoming_request m.direction && ltb protect_time (sub64 now m.birthtime))) [
        | inl late ↦ rw late refl
        | inr in_time ↦ rw in_time (type-message m.type_id m)
      ]

handle_all-Handled :
    (clock : EventMessage → ℕ) (ms : List EventMessage) → Handled ms (handle_all clock ms)
unfolding handle_all
handle_all-Handled clock [] = tt
handle_all-Handled clock (m ∷ ms) =
    ((clock m, refl, handle-message (clock m) m), handle_all-Handled clock ms)

Handled-append :
    (ms : List EventMessage) (es : List End) (ns : List EventMessage) (fs : List End)
    → Handled ms es
    → Handled ns fs
    → Handled (ms ++ ns) (es ++ fs)
Handled-append [] [] ns fs h k = k
Handled-append [] (e ∷ es) ns fs h k = absurd h
Handled-append (m ∷ ms) [] ns fs h k = absurd h
Handled-append (m ∷ ms) (e ∷ es) ns fs h k = (h.0, Handled-append ms es ns fs h.1 k)

get_or-set :
    (qs : List (List EventMessage)) (i : ℕ) (q : List EventMessage)
    → i < length qs
    → get_or (set qs i q) i [] ≡ q
get_or-set [] i q h = absurd (omega arith)
get_or-set (x ∷ qs) zero q h = refl
get_or-set (x ∷ qs) (suc i) q h = get_or-set qs i q (omega arith)

get_or-set_other :
    (qs : List (List EventMessage)) (i j : ℕ) (q : List EventMessage)
    → j ≢ i
    → get_or (set qs i q) j [] ≡ get_or qs j []
get_or-set_other [] i j q ne = refl
get_or-set_other (x ∷ qs) zero zero q ne = absurd (ne refl)
get_or-set_other (x ∷ qs) zero (suc j) q ne = refl
get_or-set_other (x ∷ qs) (suc i) zero q ne = refl
get_or-set_other (x ∷ qs) (suc i) (suc j) q ne = get_or-set_other qs i j q (λ e. ne (ap suc e))

get_or_emptied : (qs : List (List EventMessage)) (i : ℕ) → get_or (set qs i []) i [] ≡ []
get_or_emptied [] i = refl
get_or_emptied (x ∷ qs) zero = refl
get_or_emptied (x ∷ qs) (suc i) = get_or_emptied qs i

-- The thread that is chosen exists, and choosing leaves the queues alone.
chosen_in :
    (sender : ℕ) (m : EventMessage) (s : Handlers)
    → 0 < length s.queues
    → ((get_service_handle_id sender m s).0 < length s.queues)
      × ((get_service_handle_id sender m s).1.queues ≡ s.queues)
chosen_in sender m s h = by_id m.handle_id
  where
    by_id :
        (o : Option ℕ)
        → ((get_service_handle_id sender (record m { handle_id = o }) s).0 < length s.queues)
          × ((get_service_handle_id sender (record m { handle_id = o }) s).1.queues ≡ s.queues)
    by_id none = (mod-lt (s.id_hs sender) h, refl)
    by_id (some id) = elim (Bool-cases (ltb id (length s.queues))) [
      | inl own ↦ rw own (ground arith, refl)
      | inr beyond ↦ rw beyond (mod-lt (s.id_hs sender) h, refl)
    ]

sent_on :
    (m : EventMessage) (l : Log) (at : ℕ) (qs : List (List EventMessage)) (id : ℕ)
    → at < length qs
    → Stands (l.ends id) (get_or qs id []) (l.sent id)
    → Stands
        (l.ends id)
        (get_or (set qs at (get_or qs at [] ++ (m ∷ []))) id [])
        (update l.sent at (l.sent at ++ (m ∷ [])) id)
sent_on m l at qs id h (done, e, k) = elim (Bool-cases (id == at)) [
  | inl here ↦
      let same : id ≡ at = ground arith in
      (
        done,
        rw (here, sym same)
            (ap (λ q. done ++ q) (get_or-set qs id _ (rw (sym same) at h))
              ∙ sym (append_assoc done (get_or qs id []) (m ∷ []))
              ∙ ap (λ t. t ++ (m ∷ [])) e),
        k,
      )
  | inr other ↦
      (done, rw other (ap (λ q. done ++ q) (get_or-set_other qs at id _ (ground arith)) ∙ e), k)
]

handled_here :
    (clock : EventMessage → ℕ) (ends : List End) (queue queue' sent : List EventMessage)
    → queue' ≡ []
    → Stands ends queue sent
    → Stands (ends ++ handle_all clock queue) queue' sent
handled_here clock ends queue queue' sent empty (done, e, k) = (
  done ++ queue,
  ap (λ q. (done ++ queue) ++ q) empty ∙ append-nil (done ++ queue) ∙ e,
  Handled-append done ends queue (handle_all clock queue) k (handle_all-Handled clock queue),
)

taken_off :
    (clock : EventMessage → ℕ) (l : Log) (at : ℕ) (qs : List (List EventMessage)) (id : ℕ)
    → Stands (l.ends id) (get_or qs id []) (l.sent id)
    → Stands
        (update l.ends at (l.ends at ++ handle_all clock (get_or qs at [])) id)
        (get_or (set qs at []) id [])
        (l.sent id)
taken_off clock l at qs id s = elim (Bool-cases (id == at)) [
  | inl here ↦
      let same : id ≡ at = ground arith in
      rw (here, sym same)
        (handled_here clock (l.ends id) (get_or qs id []) _ (l.sent id) (get_or_emptied qs id) s)
  | inr other ↦ rw (other, get_or-set_other qs at id [] (ground arith)) s
]

work-IsOrdered : (x : Work) (l : Log) → IsOrdered l → IsOrdered (work x l)
unfolding send_to_service_handle take_queue handle_round
work-IsOrdered (send sender m) l o =
    let at = (get_service_handle_id sender m l.handlers).0 in
    let chosen = chosen_in sender m l.handlers o.some_thread in
    rw chosen.1 (record {
      waiting = λ id. sent_on m l at l.handlers.queues id chosen.0 (o.waiting id);
      some_thread = omega (
        arith,
        length-set l.handlers.queues at (get_or l.handlers.queues at [] ++ (m ∷ [])),
        o.some_thread,
      );
    })
work-IsOrdered (run clock at) l o = record {
  waiting = λ id. taken_off clock l at l.handlers.queues id (o.waiting id);
  some_thread = omega (arith, length-set l.handlers.queues at [], o.some_thread);
}

-- Where the handler threads, of which there is at least one, run ServiceHandler's loop: any order of
-- sends from any threads and of rounds of the loop, at any times, keeps the following. The messages
-- sent to a thread, in their order, are those that it has handled, each of which has come to one end,
-- that of Handle with this message, in the order of the ends, and behind them those that wait in its
-- queue. So none is lost, handled twice or overtaken.
pub work_all-IsOrdered : (xs : List Work) (l : Log) → IsOrdered l → IsOrdered (work_all xs l)
work_all-IsOrdered [] l o = o
work_all-IsOrdered (x ∷ xs) l o = work_all-IsOrdered xs (work x l) (work-IsOrdered x l o)
