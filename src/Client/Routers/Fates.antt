-- ===== src/Client/Routers/Fates.antt =====
-- What becomes of a message that is given to ClientMgr.
use native.Mathlib.Nat.{mod-lt}
use libnbf.Prelude.{
  ℕ, ◌<◌, ◌≡◌, refl, sym, ap, ◌∙◌, Bool, true, false, List, [], ◌∷◌, ◌++◌, Option, none, some, ltb,
  Bool-cases, inl, inr, length, ◌^◌, ◌%◌, get_elem?, if◌then◌else◌,
}
use libnbf.Message.{
  EventMessage, invoke_error, MessageType, unknown_event, rapid_message, heart_beat_message,
  http_message, redis_message, Direction, only_send, send_no_care_response, io_handle_event_msg,
}
use libnbf.Client.{
  Client, connected, is_synchronous, ClientConnect, Event, destroyed, called_back, to_net, World,
  log, Caller, stamped, one_way, request, get_sequence_id, Ran, send_on, invoke_on, client_send,
  client_invoke,
}
use libnbf.Client.Router.{ClientRouter, slot_of, next_of, router_send, router_invoke}
use libnbf.Client.Router.Usable.{take_client-Takes, some_con}
use libnbf.Client.Router.Served.{Served, TakenFrom, with_connect-Served, with_client-Served}
use libnbf.Client.Routers.{
  ClientRouters, in_turn, by_hash, routers_send, routers_send_hash, routers_invoke,
  routers_invoke_hash, RouterMaps, get_client_routers, mgr_send, mgr_send_hash, mgr_invoke,
  mgr_invoke_hash,
}
use libnbf.Client.Routers.Stocked.{IsStocked, AllStocked, at_slot-Served, with_routers-Served}

slot_low : (current n : ℕ) → 0 < n → slot_of current n < n
slot_low current n h = elim (Bool-cases (ltb current (2 ^ 31))) [
  | inl low ↦ rw low (mod-lt current h)
  | inr high ↦ rw high (mod-lt _ h)
]

-- The router is one of the routers.
abbrev pub RouterOf : ClientRouters → ClientRouter → Type 0
RouterOf rs r = (slot : ℕ) × (get_elem? rs.client_routers slot ≡ some r)

module _ {R : Type 0} (P : R → World → World → Type 0) (bad : R) (end : Event)
    (act : ClientRouter → World → Ran R ClientRouter) (rs : ClientRouters) (w : World)
    (q : (r : ClientRouter)
      → RouterOf rs r
      → Served P (λ r'. length r'.clients ≡ length r.clients) w (act r w)) where
  in_turn-Served : IsStocked rs → Served P IsStocked w (in_turn act rs w)
  in_turn-Served h =
      let slot = slot_of rs.current (length rs.client_routers) in
      at_slot-Served P bad end act slot (record rs { current = next_of rs.current }) w
        (slot_low rs.current (length rs.client_routers) h) (λ r at. q r (slot, at))

  by_hash-Served : (hash : ℕ) → IsStocked rs → Served P IsStocked w (by_hash act hash rs w)
  by_hash-Served hash h =
      let slot = hash % length rs.client_routers in
      at_slot-Served P bad end act slot rs w (mod-lt hash h) (λ r at. q r (slot, at))

-- The address of a connection that is connected, of a client of the router.
abbrev pub AddressOf : ClientRouter → ℕ → Type 0
AddressOf r address =
    (i : ℕ) × (c : Client) × (con : ClientConnect) × (get_elem? r.clients i ≡ some c)
    × (c.connect ≡ some con)
    × (con.status ≡ connected)
    × (con.address ≡ address)

-- The address of such a connection, of a router of the name.
abbrev pub Reaches : List ℕ → RouterMaps → ℕ → Type 0
Reaches name maps address =
    (rs : ClientRouters) × (r : ClientRouter) × (get_client_routers name maps ≡ some rs)
    × RouterOf rs r
    × AddressOf r address

-- The direction of a message that asks for no answer, by its type.
abbrev pub no_answer : MessageType → Direction
no_answer unknown_event = only_send
no_answer heart_beat_message = send_no_care_response
no_answer rapid_message = only_send
no_answer http_message = send_no_care_response
no_answer redis_message = send_no_care_response

-- What `m` is when the net thread gets it: for the address given, at the caller's time, for the
-- caller's coroutine where its thread has a handler of coroutines, and otherwise as it was.
pub record Given (at : Caller) (m : EventMessage) (address : ℕ) (n : EventMessage) : Type 0 where
  pub descriptor_id : n.descriptor_id ≡ address
  pub direction : n.direction ≡ no_answer m.type_id
  pub birthtime : n.birthtime ≡ at.clock
  pub type_io_event : n.type_io_event ≡ io_handle_event_msg
  pub owned :
      (id : Option ℕ) → at.handler ≡ some id → (n.handle_id ≡ id) × (n.coroutine_id ≡ at.coroutine)
  pub unowned : at.handler ≡ none → (n.handle_id ≡ m.handle_id) × (n.coroutine_id ≡ m.coroutine_id)
  pub type_id : n.type_id ≡ m.type_id
  pub status : n.status ≡ m.status
  pub sequence_id : n.sequence_id ≡ m.sequence_id
  pub timer_out_id : n.timer_out_id ≡ m.timer_out_id
  pub ctx : n.ctx ≡ m.ctx

-- A message of Send, by the result: given to the net thread as one that asks for no answer, for an
-- address that `known` holds of, or destroyed; no other event, and no sequence id used up.
abbrev pub Sent : (ℕ → Type 0) → Caller → EventMessage → Bool → World → World → Type 0
Sent known at m true w w' =
    (address : ℕ) × (n : EventMessage) × known address
    × Given at m address n
    × (w'.events ≡ w.events ++ (to_net n ∷ []))
    × (w'.sequence_id ≡ w.sequence_id)
Sent known at m false w w' =
    (w'.events ≡ w.events ++ (destroyed m ∷ [])) × (w'.sequence_id ≡ w.sequence_id)

one_way_direction :
    (t : MessageType)
    → (if is_synchronous t then send_no_care_response else only_send) ≡ no_answer t
one_way_direction unknown_event = refl
one_way_direction heart_beat_message = refl
one_way_direction rapid_message = refl
one_way_direction http_message = refl
one_way_direction redis_message = refl

abbrev caller_of : Option (Option ℕ) → ℕ → Option ℕ → Caller
caller_of handler clock coroutine = record {
  clock = clock;
  handler = handler;
  coroutine = coroutine;
}

stamped-Given :
    (handler : Option (Option ℕ)) (clock : ℕ) (coroutine : Option ℕ) (con : ClientConnect)
    (m : EventMessage)
    → Given
        (caller_of handler clock coroutine)
        m
        con.address
        (stamped (caller_of handler clock coroutine) (one_way con m))
stamped-Given none clock coroutine con m = record {
  descriptor_id = refl;
  direction = one_way_direction m.type_id;
  birthtime = refl;
  type_io_event = refl;
  owned = λ id e. cc;
  unowned = λ e. (refl, refl);
  type_id = refl;
  status = refl;
  sequence_id = refl;
  timer_out_id = refl;
  ctx = refl;
}
stamped-Given (some x) clock coroutine con m = record {
  descriptor_id = refl;
  direction = one_way_direction m.type_id;
  birthtime = refl;
  type_io_event = refl;
  owned = λ id e. (ap (λ o. elim o [ none ↦ x | some y ↦ y ]) e, refl);
  unowned = λ e. cc;
  type_id = refl;
  status = refl;
  sequence_id = refl;
  timer_out_id = refl;
  ctx = refl;
}

-- The connection of a client that the router has handed out.
taken_address :
    (r : ClientRouter) (busy : Client) (con : ClientConnect)
    → TakenFrom r busy
    → busy.connect ≡ some con
    → AddressOf r con.address
taken_address r busy con (i, c, at, taken) over =
    let t = take_client-Takes c busy taken in
    let same : t.1 ≡ con = some_con (sym t.3.over ∙ over) in
    (i, c, t.0, at, t.2.over, t.2.works, sym t.3.address ∙ ap (λ x. x.address) same)

router_send-Served :
    (known : ℕ → Type 0) (at : Caller) (m : EventMessage) (r : ClientRouter) (w : World)
    → ((address : ℕ) → AddressOf r address → known address)
    → Served (Sent known at m) (λ r'. length r'.clients ≡ length r.clients) w (router_send at m r w)
unfolding router_send client_send
router_send-Served known at m r w k =
    let P = Sent known at m in
    with_client-Served P false (destroyed m) (client_send at m) r w (refl, refl)
      (λ c works from.
        with_connect-Served P false (destroyed m) (send_on at m) c w works (λ con over. (
          con.address,
          stamped at (one_way con m),
          k con.address (taken_address r c con from over),
          stamped-Given at.handler at.clock at.coroutine con m,
          refl,
          refl,
        )))

-- Where every name has a router: Send and SendHash return, whatever the name, the hash and the clients
-- are. If the result is true, the message has been given once to the net thread, for the address of a
-- connected connection of a client of the name, with the direction of a message that asks for no
-- answer, the caller's time and, where the caller's thread handles coroutines, its handler and
-- coroutine, and otherwise unchanged. If it is false, the message has been destroyed once. Nothing else
-- is sent, destroyed or called, and every name has a router afterwards.
pub mgr_send-Sent :
    (at : Caller) (name : List ℕ) (m : EventMessage) (hash : ℕ) (maps : RouterMaps) (w : World)
    → AllStocked maps
    → Served (Sent (Reaches name maps) at m) AllStocked w (mgr_send at name m maps w)
      × Served (Sent (Reaches name maps) at m) AllStocked w (mgr_send_hash at name m hash maps w)
unfolding mgr_send mgr_send_hash routers_send routers_send_hash
mgr_send-Sent at name m hash maps w s =
    let P = Sent (Reaches name maps) at m in
    let end = destroyed m in
    let act = router_send at m in
    (
      with_routers-Served P false end (in_turn act) name maps w s (refl, refl)
          (λ rs e h. in_turn-Served P false end act rs w (one_router rs e) h),
      with_routers-Served P false end (by_hash act hash) name maps w s (refl, refl)
          (λ rs e h. by_hash-Served P false end act rs w (one_router rs e) hash h),
    )
  where
    one_router :
        (rs : ClientRouters)
        → get_client_routers name maps ≡ some rs
        → (r : ClientRouter) → RouterOf rs r
        → Served
            (Sent (Reaches name maps) at m)
            (λ r'. length r'.clients ≡ length r.clients)
            w
            (router_send at m r w)
    one_router rs e r in_rs =
        router_send-Served (Reaches name maps) at m r w (λ address of. (rs, r, e, in_rs, of))

-- A message of Invoke: given to the net thread with its callback and the next sequence id, or given to
-- the callback as an error.
abbrev pub Invoked : Caller → EventMessage → ℕ → Bool → World → World → Type 0
Invoked at m cb true w w' =
    (con : ClientConnect) × (w'
      ≡ log (to_net (stamped at (record (request con w.sequence_id m) { ctx = some cb })))
          (get_sequence_id w).1)
Invoked at m cb false w w' = w' ≡ log (called_back cb (record m { status = invoke_error })) w

router_invoke-Served :
    (at : Caller) (m : EventMessage) (cb : ℕ) (r : ClientRouter) (w : World)
    → Served
        (Invoked at m cb)
        (λ r'. length r'.clients ≡ length r.clients)
        w
        (router_invoke at m cb r w)
unfolding router_invoke client_invoke
router_invoke-Served at m cb r w =
    let P = Invoked at m cb in
    let end = called_back cb (record m { status = invoke_error }) in
    with_client-Served P false end (client_invoke at m cb) r w refl (λ c works from.
      with_connect-Served P false end (invoke_on at m cb) c w works (λ con over. (con, refl)))

-- Where every name has a router: both forms of Invoke return; the message has then been given to the
-- net thread with the callback and the next sequence id, and the callback has not been called, or the
-- callback has been called once with the message as an error, and nothing is sent.
pub mgr_invoke-Invoked :
    (at : Caller) (name : List ℕ) (m : EventMessage) (cb hash : ℕ) (maps : RouterMaps) (w : World)
    → AllStocked maps
    → Served (Invoked at m cb) AllStocked w (mgr_invoke at name m cb maps w)
      × Served (Invoked at m cb) AllStocked w (mgr_invoke_hash at name m cb hash maps w)
unfolding mgr_invoke mgr_invoke_hash routers_invoke routers_invoke_hash
mgr_invoke-Invoked at name m cb hash maps w s =
    let P = Invoked at m cb in
    let q = router_invoke-Served at m cb in
    let end = called_back cb (record m { status = invoke_error }) in
    (
      with_routers-Served P false end (in_turn (router_invoke at m cb)) name maps w s refl
          (λ rs e h. in_turn-Served P false end (router_invoke at m cb) rs w (λ r of. q r w) h),
      with_routers-Served P false end (by_hash (router_invoke at m cb) hash) name maps w s refl
          (λ rs e h.
            by_hash-Served P false end (router_invoke at m cb) rs w (λ r of. q r w) hash h),
    )
