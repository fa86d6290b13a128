-- ===== src/Client/Router.antt =====
-- src/client/client_router.cpp: the clients of one address, used in turn.
pub mod Usable
pub mod Choice
pub mod Served
use libnbf.Prelude.{
  ℕ, zero, suc, ◌+◌, ◌-◌, ◌%◌, ◌^◌, Bool, true, false, List, [], ◌∷◌, ◌++◌, map, Option, none, some,
  ltb, if◌then◌else◌, length, get_elem?, set,
}
use libnbf.Message.{EventMessage, invoke_error}
use libnbf.Client.{
  ClientConnect, Client, Event, destroyed, called_back, World, log, Caller, is_connected,
  try_set_buzy, Ran, client_send, client_invoke, client_send_recieve, client_stop,
}

pub record ClientRouter : Type 0 where
  pub clients : List Client
  pub current : ℕ

-- `int idx = current_++`, and the slot: a negative int is extended to 64 bits before the remainder.
abbrev pub slot_of : ℕ → ℕ → ℕ
slot_of current size =
    if ltb current (2 ^ 31) then current % size else (2 ^ 64 - 2 ^ 32 + current) % size

abbrev pub next_of : ℕ → ℕ
next_of current = (current + 1) % 2 ^ 32

-- The condition of GetValidClient on a client, which TrySetBusy makes busy.
unfoldable pub take_client : Client → Option Client
take_client c = elim c.connect [
  | none ↦ none
  | some con ↦
      if is_connected con.status
      then (if c.sigle_send_sigle_recv
          then elim (try_set_buzy true con) [
            | none ↦ none
            | some busy ↦ some (record c { connect = some busy })
          ]
          else some c)
      else none
]

-- The loop of GetValidClient with the rounds that it has left; a client is its place in the list.
unfoldable pub find_client : ℕ → ClientRouter → Option ℕ × ClientRouter
find_client zero r = (none, r)
find_client (suc left) r =
    let i = slot_of r.current (length r.clients) in
    let moved = record r { current = next_of r.current } in
    let rest = find_client left moved in
    elim (get_elem? r.clients i) [
      | none ↦ rest
      | some c ↦ elim (take_client c) [
        | none ↦ rest
        | some busy ↦ (some i, record moved { clients = set r.clients i busy })
      ]
    ]

unfoldable pub get_valid_client : ClientRouter → Option ℕ × ClientRouter
get_valid_client r = find_client (length r.clients) r

-- What Send, Invoke and DoSendRecieve have in common: without a client the message ends as given.
unfoldable pub with_client :
    {R : Type 0}
    → R
    → Event
    → (Client → World → Ran R Client)
    → ClientRouter
    → World
    → Ran R ClientRouter
with_client bad end act r w =
    let found = get_valid_client r in
    elim found.0 [
      | none ↦ some (bad, found.1, log end w)
      | some i ↦ elim (get_elem? found.1.clients i) [
        | none ↦ none
        | some c ↦ elim (act c w) [
          | none ↦ none
          | some (x, c', w') ↦ some (x, record found.1 { clients = set found.1.clients i c' }, w')
        ]
      ]
    ]

unfoldable pub router_send : Caller → EventMessage → ClientRouter → World → Ran Bool ClientRouter
router_send at m = with_client false (destroyed m) (client_send at m)

unfoldable pub router_invoke :
    Caller → EventMessage → ℕ → ClientRouter → World → Ran Bool ClientRouter
router_invoke at m cb =
    with_client false (called_back cb (record m { status = invoke_error })) (client_invoke at m cb)

unfoldable pub router_send_recieve :
    Caller
    → (EventMessage → Option EventMessage)
    → EventMessage
    → ClientRouter
    → World
    → Ran (Option EventMessage) ClientRouter
router_send_recieve at recieve m = with_client none (destroyed m) (client_send_recieve at recieve m)

unfoldable pub router_stop : ClientRouter → ClientRouter
router_stop r = record r { clients = map client_stop r.clients }

-- The clients of Start, with the connection that Client::Start makes for each, as far as it succeeds.
unfoldable pub start_clients : (ℕ → Option ClientConnect) → Bool → ℕ → ℕ → Option (List Client)
start_clients try_connect sigle idx zero = some []
start_clients try_connect sigle idx (suc left) = elim (try_connect idx) [
  | none ↦ none
  | some con ↦ elim (start_clients try_connect sigle (idx + 1) left) [
    | none ↦ none
    | some cs ↦ some (record { connect = some con; sigle_send_sigle_recv = sigle } ∷ cs)
  ]
]

-- Start for `count` connections of an address; none is -1, behind which the router is deleted.
unfoldable pub router_start : (ℕ → Option ClientConnect) → Bool → ℕ → Option ClientRouter
router_start try_connect sigle count = elim (start_clients try_connect sigle 0 count) [
  | none ↦ none
  | some cs ↦ some (record { clients = cs; current = 0 })
]
