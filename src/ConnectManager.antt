-- ===== src/ConnectManager.antt =====
-- src/net/connect_manager.cpp: the connections of a server, which are deleted some time after their
-- release. A connection is a number, its address; `connect_id` is the id that each was given. A lock
-- makes an operation one step, and the order in which a sweep goes over the map is that of the list.
pub mod Counts
pub mod Kept
pub mod Runs
use libnbf.Prelude.{
  ℕ, zero, suc, ◌+◌, ◌-◌, ◌%◌, ◌^◌, Bool, true, false, not, ◌&&◌, List, [], ◌∷◌, ◌++◌, map, ltb,
  ◌==◌, if◌then◌else◌, length,
}
use libnbf.Prelude.Memory.{update}

-- The entries of connected_list_ and of delay_delete_connect_list_.
pub record Connected : Type 0 where
  pub id : ℕ
  pub con : ℕ

pub record Delayed : Type 0 where
  pub id : ℕ
  pub since : ℕ
  pub con : ℕ

pub record Manager : Type 0 where
  pub connect_squency : ℕ
  pub connected_list : List Connected
  pub delay_list : List Delayed
  pub del_time : ℕ
  pub connect_id : ℕ → ℕ

-- The constructor; a connection's id is not set before AddConnect.
unfoldable pub new_manager : (ℕ → ℕ) → Manager
new_manager unset = record {
  connect_squency = 0;
  connected_list = [];
  delay_list = [];
  del_time = 0;
  connect_id = unset;
}

abbrev pub delay_delete_times : ℕ
delay_delete_times = 90

abbrev pub delete_interval_times : ℕ
delete_interval_times = 10

-- The loop of DeleteDalayCon: the connections it deletes, and the entries that stay.
unfoldable pub sweep : ℕ → List Delayed → List ℕ × List Delayed
sweep now [] = ([], [])
sweep now (e ∷ es) =
    let rest = sweep now es in
    if ltb (e.since + delay_delete_times) now
    then (e.con ∷ rest.0, rest.1)
    else (rest.0, e ∷ rest.1)

-- `int cur_time = time(NULL)`, where it is not negative.
abbrev pub cur_time : ℕ → ℕ
cur_time now = now % 2 ^ 32

-- DeleteDalayCon. An int that is negative is no more than a `del_time_`, which never is negative.
unfoldable pub delete_dalay_con : ℕ → Manager → List ℕ × Manager
delete_dalay_con now m =
    let cur = cur_time now in
    let late = ltb cur (2 ^ 31) && ltb (m.del_time + delete_interval_times) cur in
    if late && not (length m.delay_list == 0)
    then (
      (sweep cur m.delay_list).0,
      record m { delay_list = (sweep cur m.delay_list).1; del_time = cur },
    )
    else ([], m)

-- insert of the two maps: false where the key stands already.
unfoldable pub has_connected : ℕ → List Connected → Bool
has_connected id [] = false
has_connected id (e ∷ es) = let rest = has_connected id es in if e.id == id then true else rest

unfoldable pub has_delayed : ℕ → List Delayed → Bool
has_delayed id [] = false
has_delayed id (e ∷ es) = let rest = has_delayed id es in if e.id == id then true else rest

-- erase of connected_list_: whether the key stood there.
unfoldable pub erase_connected : ℕ → List Connected → Bool × List Connected
erase_connected id [] = (false, [])
erase_connected id (e ∷ es) =
    let rest = erase_connected id es in if e.id == id then (true, es) else (rest.0, e ∷ rest.1)

-- AddConnect: the connections that its sweep deletes, and whether the insertion went well.
unfoldable pub add_connect : ℕ → ℕ → Manager → List ℕ × Bool × Manager
add_connect con now m =
    let swept = delete_dalay_con now m in
    let s = swept.1 in
    let id = (if ltb s.connect_squency (2 ^ 63) then s.connect_squency else 0) + 1 in
    let given = record s { connect_squency = id; connect_id = update s.connect_id con id } in
    if has_connected id s.connected_list then (swept.0, false, given) else (
      swept.0,
      true,
      record given { connected_list = record { id = id; con = con } ∷ s.connected_list },
    )

-- SetRelease
unfoldable pub set_release : ℕ → ℕ → Manager → Bool × Manager
set_release con now m =
    let id = m.connect_id con in
    let erased = erase_connected id m.connected_list in
    let s = record m { connected_list = erased.1 } in
    if erased.0
    then (if has_delayed id m.delay_list then (false, s) else (
      true,
      record s { delay_list = record { id = id; since = now; con = con } ∷ m.delay_list },
    ))
    else (false, s)

-- Release, of the process's end: what it deletes.
unfoldable pub release : ℕ → Manager → List ℕ × Manager
release now m =
    let swept = delete_dalay_con now m in
    (swept.0 ++ map (λ e. e.con) swept.1.connected_list, record swept.1 { connected_list = [] })
