-- ===== src/Tests/ClientTests.antt =====
-- src/client on concrete inputs.
use libnbf.Prelude.{
  ℕ, zero, suc, ◌-◌, ◌^◌, ◌≡◌, refl, Bool, true, false, [], ◌∷◌, Option, none, some, arith,
}
use libnbf.Prelude.Bytes.{codes}
use libnbf.Message.{EventMessage, new_message, rapid_message}
use libnbf.Client.{ConnectStatus, connected, broken, ClientConnect, Client, World, Caller}
use libnbf.Client.Router.{ClientRouter, take_client, find_client, get_valid_client}
use libnbf.Client.Router.Choice.{Chosen, get_valid_client-Chosen}
use libnbf.Client.Router.Served.{Served}
use libnbf.Client.Routers.{
  RouterMaps, ClientConfig, ClientRouterConfig, mgr_start, mgr_send, mgr_send_hash, mgr_invoke,
  mgr_invoke_hash,
}
use libnbf.Client.Routers.Stocked.{AllStocked, mgr_start-AllStocked}
use libnbf.Client.Routers.Fates.{Sent, Reaches, mgr_send-Sent, Invoked, mgr_invoke-Invoked}

abbrev client_at : ℕ → ConnectStatus → Bool → Client
client_at address status buzy = record {
  connect =
      some (record { address = address; status = status; synchronous = true; is_buzy = buzy });
  sigle_send_sigle_recv = true;
}

-- A client that is broken, one that is busy and one that is free.
abbrev three : ClientRouter
three = record {
  clients =
      client_at 10 broken false ∷ client_at 11 connected true ∷ client_at 12 connected false ∷ [];
  current = 4;
}

takes_free : get_valid_client three ≡ (
  some 2,
  record {
    clients =
        client_at 10 broken false ∷ client_at 11 connected true ∷ client_at 12 connected true ∷ [];
    current = 6;
  },
)
unfolding get_valid_client find_client take_client
takes_free = refl

-- The counter wraps around, and the first slot is seen twice, and the client that is free is missed.
misses_free : (get_valid_client (record three { current = 2 ^ 32 - 1 })).0 ≡ none
unfolding get_valid_client find_client take_client
misses_free = refl

get_valid_client-Chosen_example : Chosen three (get_valid_client three).0 (get_valid_client three).1
get_valid_client-Chosen_example = get_valid_client-Chosen three (omega arith)

abbrev maps : RouterMaps
maps = (codes "redis", record { client_routers = three ∷ []; current = 7 }) ∷ []

maps-AllStocked : AllStocked maps
maps-AllStocked = (omega arith, tt)

abbrev start : World
start = record { sequence_id = 5; events = [] }

abbrev caller : Caller
caller = record { clock = 1000; handler = some (some 2); coroutine = some 3 }

abbrev note : EventMessage
note = new_message rapid_message

mgr_send-Sent_example :
    Served
      (Sent (Reaches (codes "redis") maps) caller note)
      AllStocked
      start
      (mgr_send caller (codes "redis") note maps start)
    × Served
        (Sent (Reaches (codes "redis") maps) caller note)
        AllStocked
        start
        (mgr_send_hash caller (codes "redis") note 9 maps start)
mgr_send-Sent_example = mgr_send-Sent caller (codes "redis") note 9 maps start maps-AllStocked

mgr_invoke-Invoked_run :
    Served
      (Invoked caller note 77)
      AllStocked
      start
      (mgr_invoke caller (codes "redis") note 77 maps start)
    × Served
        (Invoked caller note 77)
        AllStocked
        start
        (mgr_invoke_hash caller (codes "redis") note 77 9 maps start)
mgr_invoke-Invoked_run =
    mgr_invoke-Invoked caller (codes "redis") note 77 9 maps start maps-AllStocked

abbrev config : ClientRouterConfig
config = record {
  name = codes "redis";
  sigle_send_sigle_recv = true;
  clients = record { address = codes "a"; single_addr_connect_count = 2 } ∷ [];
}

-- The second connection of an address fails.
abbrev one_fails : ClientConfig → ℕ → Option ClientConnect
one_fails cfg zero = (client_at 10 connected false).connect
one_fails cfg (suc n) = none

mgr_start_run : AllStocked (mgr_start one_fails (config ∷ []) maps).1
mgr_start_run = mgr_start-AllStocked one_fails (config ∷ []) maps (omega arith, tt) maps-AllStocked
