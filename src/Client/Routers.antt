-- ===== src/Client/Routers.antt =====
-- src/client/client_routers.cpp and client_mgr.cpp: the routers of one name, and the routers by name.
pub mod Stocked
pub mod Fates
use libnbf.Prelude.{
  ℕ, zero, suc, ◌+◌, ◌%◌, Bool, true, false, not, ◌&&◌, List, [], ◌∷◌, ◌++◌, map, Option, none,
  some, ◌==◌, if◌then◌else◌, length, get_elem?, set,
}
use libnbf.Message.{EventMessage, invoke_error}
use libnbf.Client.{ClientConnect, Event, destroyed, called_back, World, log, Caller, Ran}
use libnbf.Client.Router.{
  ClientRouter, slot_of, next_of, router_send, router_invoke, router_send_recieve, router_stop,
  router_start,
}

pub record ClientRouters : Type 0 where
  pub client_routers : List ClientRouter
  pub current : ℕ

-- A call on the router at a slot; none is the division by zero of an empty list. The list holds the
-- routers that Start has made, so that the check for a null router is left out.
abbrev pub at_slot :
    {R : Type 0}
    → (ClientRouter → World → Ran R ClientRouter)
    → ℕ
    → ClientRouters
    → World
    → Ran R ClientRouters
at_slot act slot rs w = elim (get_elem? rs.client_routers slot) [
  | none ↦ none
  | some r ↦ elim (act r w) [
    | none ↦ none
    | some (x, r', w') ↦ some (x, record rs { client_routers = set rs.client_routers slot r' }, w')
  ]
]

-- The slot of the counter as an int, with the counter moved on.
abbrev pub in_turn :
    {R : Type 0}
    → (ClientRouter → World → Ran R ClientRouter)
    → ClientRouters
    → World
    → Ran R ClientRouters
in_turn act rs w =
    at_slot act (slot_of rs.current (length rs.client_routers))
      (record rs { current = next_of rs.current }) w

abbrev pub by_hash :
    {R : Type 0}
    → (ClientRouter → World → Ran R ClientRouter)
    → ℕ
    → ClientRouters
    → World
    → Ran R ClientRouters
by_hash act hash rs w = at_slot act (hash % length rs.client_routers) rs w

unfoldable pub routers_send : Caller → EventMessage → ClientRouters → World → Ran Bool ClientRouters
routers_send at m = in_turn (router_send at m)

unfoldable pub routers_send_hash :
    Caller → EventMessage → ℕ → ClientRouters → World → Ran Bool ClientRouters
routers_send_hash at m hash = by_hash (router_send at m) hash

unfoldable pub routers_invoke :
    Caller → EventMessage → ℕ → ClientRouters → World → Ran Bool ClientRouters
routers_invoke at m cb = in_turn (router_invoke at m cb)

unfoldable pub routers_invoke_hash :
    Caller → EventMessage → ℕ → ℕ → ClientRouters → World → Ran Bool ClientRouters
routers_invoke_hash at m cb hash = by_hash (router_invoke at m cb) hash

-- SendRecieve, where the index is not signed.
unfoldable pub routers_send_recieve :
    Caller
    → (EventMessage → Option EventMessage)
    → EventMessage
    → ClientRouters
    → World
    → Ran (Option EventMessage) ClientRouters
routers_send_recieve at recieve m rs w =
    at_slot (router_send_recieve at recieve m) (rs.current % length rs.client_routers)
      (record rs { current = next_of rs.current }) w

unfoldable pub routers_send_recieve_hash :
    Caller
    → (EventMessage → Option EventMessage)
    → EventMessage
    → ℕ
    → ClientRouters
    → World
    → Ran (Option EventMessage) ClientRouters
routers_send_recieve_hash at recieve m hash = by_hash (router_send_recieve at recieve m) hash

unfoldable pub routers_stop : ClientRouters → ClientRouters
routers_stop rs = record rs { client_routers = map router_stop rs.client_routers }

pub record ClientConfig : Type 0 where
  pub address : List ℕ
  pub single_addr_connect_count : ℕ

pub record ClientRouterConfig : Type 0 where
  pub name : List ℕ
  pub sigle_send_sigle_recv : Bool
  pub clients : List ClientConfig

-- The routers of Start, with the connections that each client makes, as far as all succeed.
unfoldable pub start_routers :
    (ClientConfig → ℕ → Option ClientConnect)
    → Bool
    → List ClientConfig
    → Option (List ClientRouter)
start_routers try_connect sigle [] = some []
start_routers try_connect sigle (c ∷ cs) =
    elim (router_start (try_connect c) sigle c.single_addr_connect_count) [
      | none ↦ none
      | some r ↦ elim (start_routers try_connect sigle cs) [ none ↦ none | some rs ↦ some (r ∷ rs) ]
    ]

unfoldable pub same_name : List ℕ → List ℕ → Bool
same_name [] [] = true
same_name [] (y ∷ ys) = false
same_name (x ∷ xs) [] = false
same_name (x ∷ xs) (y ∷ ys) = (x == y) && same_name xs ys

-- router_maps_
abbrev pub RouterMaps : Type 0
RouterMaps = List (List ℕ × ClientRouters)

unfoldable pub get_client_routers : List ℕ → RouterMaps → Option ClientRouters
get_client_routers name [] = none
get_client_routers name (e ∷ maps) =
    let rest = get_client_routers name maps in if same_name e.0 name then some e.1 else rest

unfoldable pub put_client_routers : List ℕ → ClientRouters → RouterMaps → RouterMaps
put_client_routers name rs [] = (name, rs) ∷ []
put_client_routers name rs (e ∷ maps) =
    let rest = put_client_routers name rs maps in
    if same_name e.0 name then (name, rs) ∷ maps else e ∷ rest

-- ClientMgr::Start; false is -1, with the routers that stand by then.
unfoldable pub mgr_start :
    (ClientConfig → ℕ → Option ClientConnect)
    → List ClientRouterConfig
    → RouterMaps
    → Bool × RouterMaps
mgr_start try_connect [] maps = (true, maps)
mgr_start try_connect (cfg ∷ cfgs) maps = elim (get_client_routers cfg.name maps) [
  | some old ↦ mgr_start try_connect cfgs maps
  | none ↦ elim (start_routers try_connect cfg.sigle_send_sigle_recv cfg.clients) [
    | none ↦ (false, maps)
    | some rs ↦
        mgr_start try_connect cfgs
          (put_client_routers cfg.name (record { client_routers = rs; current = 0 }) maps)
  ]
]

unfoldable pub mgr_stop : RouterMaps → RouterMaps
mgr_stop maps = map (λ e. (e.0, routers_stop e.1)) maps

-- What the operations of ClientMgr have in common: the routers of a name, or the message's end.
abbrev pub with_routers :
    {R : Type 0}
    → R
    → Event
    → (ClientRouters → World → Ran R ClientRouters)
    → List ℕ
    → RouterMaps
    → World
    → Ran R RouterMaps
with_routers bad end act name maps w = elim (get_client_routers name maps) [
  | none ↦ some (bad, maps, log end w)
  | some rs ↦ elim (act rs w) [
    | none ↦ none
    | some (x, rs', w') ↦ some (x, put_client_routers name rs' maps, w')
  ]
]

-- ClientMgr::Send
unfoldable pub mgr_send : Caller → List ℕ → EventMessage → RouterMaps → World → Ran Bool RouterMaps
mgr_send at name m = with_routers false (destroyed m) (routers_send at m) name

unfoldable pub mgr_send_hash :
    Caller → List ℕ → EventMessage → ℕ → RouterMaps → World → Ran Bool RouterMaps
mgr_send_hash at name m hash = with_routers false (destroyed m) (routers_send_hash at m hash) name

unfoldable pub mgr_invoke :
    Caller → List ℕ → EventMessage → ℕ → RouterMaps → World → Ran Bool RouterMaps
mgr_invoke at name m cb =
    with_routers false (called_back cb (record m { status = invoke_error }))
      (routers_invoke at m cb) name

unfoldable pub mgr_invoke_hash :
    Caller → List ℕ → EventMessage → ℕ → ℕ → RouterMaps → World → Ran Bool RouterMaps
mgr_invoke_hash at name m cb hash =
    with_routers false (called_back cb (record m { status = invoke_error }))
      (routers_invoke_hash at m cb hash) name

unfoldable pub mgr_send_recieve :
    Caller
    → List ℕ
    → (EventMessage → Option EventMessage)
    → EventMessage
    → RouterMaps
    → World
    → Ran (Option EventMessage) RouterMaps
mgr_send_recieve at name recieve m =
    with_routers none (destroyed m) (routers_send_recieve at recieve m) name

unfoldable pub mgr_send_recieve_hash :
    Caller
    → List ℕ
    → (EventMessage → Option EventMessage)
    → EventMessage
    → ℕ
    → RouterMaps
    → World
    → Ran (Option EventMessage) RouterMaps
mgr_send_recieve_hash at name recieve m hash =
    with_routers none (destroyed m) (routers_send_recieve_hash at recieve m hash) name
