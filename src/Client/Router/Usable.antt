-- ===== src/Client/Router/Usable.antt =====
-- What GetValidClient asks of a client, and what it makes of it.

use libnbf.Prelude.{ℕ, ◌≡◌, refl, ap, sym, ◌∙◌, Bool, true, false, ◌&&◌, Option, none, some}
use libnbf.Client.{
  ClientConnect, Client, ConnectStatus, is_working, connecting, connected, broken, stopping,
}
use libnbf.Client.Router.{take_client}

-- A client that can be used, over its connection: the connection is connected, and where it is a
-- synchronous one of a client for single sends, it is not busy.
pub record Usable (c : Client) (con : ClientConnect) : Type 0 where
  pub over : c.connect ≡ some con
  pub works : con.status ≡ connected
  pub free : c.sigle_send_sigle_recv ≡ true → con.synchronous ≡ true → con.is_buzy ≡ false

-- What becomes of it: the same client over the same connection, which is now busy if it is such a one.
pub record Marked (c : Client) (con : ClientConnect) (c' : Client) (con' : ClientConnect)
    : Type 0 where
  pub over : c'.connect ≡ some con'
  pub single : c'.sigle_send_sigle_recv ≡ c.sigle_send_sigle_recv
  pub address : con'.address ≡ con.address
  pub status : con'.status ≡ con.status
  pub synchronous : con'.synchronous ≡ con.synchronous
  pub busy : c.sigle_send_sigle_recv ≡ true → con.synchronous ≡ true → con'.is_buzy ≡ true
  pub other : c.sigle_send_sigle_recv && con.synchronous ≡ false → con'.is_buzy ≡ con.is_buzy

abbrev pub Takes : Client → Client → Type 0
Takes c c' = (con : ClientConnect) × (con' : ClientConnect) × Usable c con × Marked c con c' con'

abbrev Told : Client → Option Client → Type 0
Told c none = (con : ClientConnect) → ¬ (Usable c con)
Told c (some c') = Takes c c'

connected_code : ConnectStatus → Bool
connected_code connecting = false
connected_code connected = true
connected_code broken = false
connected_code stopping = false

abbrev con_at : ℕ → ConnectStatus → Bool → Bool → ClientConnect
con_at address status synchronous buzy = record {
  address = address;
  status = status;
  synchronous = synchronous;
  is_buzy = buzy;
}

abbrev client_on : Bool → ClientConnect → Client
client_on sigle con = record { connect = some con; sigle_send_sigle_recv = sigle }

pub some_con : {a b : ClientConnect} → ◌≡◌ {A = Option ClientConnect} (some a) (some b) → a ≡ b
some_con {a = a} e = ap (λ o. elim o [ none ↦ a | some x ↦ x ]) e

not-Usable :
    (sigle : Bool) (con : ClientConnect)
    → connected_code con.status ≡ false
    → (d : ClientConnect) → ¬ (Usable (client_on sigle con) d)
unfolding connected_code
not-Usable sigle con h d u =
    let same : con.status ≡ connected = ap (λ x. x.status) (some_con u.over) ∙ u.works in
    cc (ap connected_code same)

busy-not-Usable :
    (address : ℕ) (d : ClientConnect)
    → ¬ (Usable (client_on true (con_at address connected true true)) d)
busy-not-Usable address d u =
    let same = some_con u.over in
    let busy : true ≡ d.is_buzy = ap (λ x. x.is_buzy) same in
    let free = u.free refl (sym (ap (λ x. x.synchronous) same)) in cc (busy ∙ free)

connected-Told :
    (sigle synchronous buzy : Bool) (address : ℕ)
    → Told
        (client_on sigle (con_at address connected synchronous buzy))
        (take_client (client_on sigle (con_at address connected synchronous buzy)))
unfolding take_client
connected-Told false synchronous buzy address = (
  con_at address connected synchronous buzy,
  con_at address connected synchronous buzy,
  record { over = refl; works = refl; free = λ e f. cc },
  record {
    over = refl;
    single = refl;
    address = refl;
    status = refl;
    synchronous = refl;
    busy = λ e f. cc;
    other = λ e. refl;
  },
)
connected-Told true false buzy address = (
  con_at address connected false buzy,
  con_at address connected false buzy,
  record { over = refl; works = refl; free = λ e f. cc },
  record {
    over = refl;
    single = refl;
    address = refl;
    status = refl;
    synchronous = refl;
    busy = λ e f. cc;
    other = λ e. refl;
  },
)
connected-Told true true false address = (
  con_at address connected true false,
  con_at address connected true true,
  record { over = refl; works = refl; free = λ e f. refl },
  record {
    over = refl;
    single = refl;
    address = refl;
    status = refl;
    synchronous = refl;
    busy = λ e f. refl;
    other = λ e. cc;
  },
)
connected-Told true true true address = busy-not-Usable address

on-Told :
    (sigle : Bool) (o : Option ClientConnect)
    → Told
        (record { connect = o; sigle_send_sigle_recv = sigle })
        (take_client (record { connect = o; sigle_send_sigle_recv = sigle }))
unfolding take_client connected_code
on-Told sigle none = λ con u. cc u.over
on-Told sigle (some con) =
    elim con.status
      as (λ s.
        Told (client_on sigle (record con { status = s }))
          (take_client (client_on sigle (record con { status = s })))) [
            | connecting ↦ not-Usable sigle (record con { status = connecting }) refl
            | connected ↦ connected-Told sigle con.synchronous con.is_buzy con.address
            | broken ↦ not-Usable sigle (record con { status = broken }) refl
            | stopping ↦ not-Usable sigle (record con { status = stopping }) refl
          ]

take_client-Told : (c : Client) → Told c (take_client c)
take_client-Told c = on-Told c.sigle_send_sigle_recv c.connect

pub take_client-Takes : (c busy : Client) → take_client c ≡ some busy → Takes c busy
take_client-Takes c busy e = rw e at (take_client-Told c)

pub take_client-unusable :
    (c : Client) → take_client c ≡ none → (con : ClientConnect) → ¬ (Usable c con)
take_client-unusable c e = rw e at (take_client-Told c)

pub take_client-works : (c busy : Client) → take_client c ≡ some busy → is_working busy ≡ true
take_client-works c busy e =
    let t = take_client-Takes c busy e in let k = t.3 in rw (k.over, k.status, t.2.works) refl
