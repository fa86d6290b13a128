-- ===== src/ConnectManager/Kept.antt =====
-- No connection of a server is lost or deleted twice.
use libnbf.Prelude.{
  ℕ, ◌+◌, ◌^◌, ◌≤◌, ◌<◌, ◌≡◌, ◌≢◌, refl, Bool, true, false, ◌&&◌, not, List, [], ◌∷◌, arith, ltb,
  ◌==◌, Bool-cases, inl, inr, length,
}
use libnbf.Prelude.Memory.{update}
use libnbf.ConnectManager.{
  Connected, Manager, delete_interval_times, cur_time, delete_dalay_con, has_connected, has_delayed,
  erase_connected, add_connect, set_release,
}
use libnbf.ConnectManager.Counts.{
  one_if, count, ids, cons, delayed_ids, delayed_cons, Waits, AllOverdue, sweep-AllOverdue,
  count-sweep, count_ids-sweep, has_connected_lem, has_delayed_lem, Listed, erase_connected-Erases,
}

abbrev pub id_count : Manager → ℕ → ℕ
id_count m k = count k (ids m.connected_list) + count k (delayed_ids m.delay_list)

-- How often a connection stands in the two maps.
abbrev pub live : Manager → ℕ → ℕ
live m a = count a (cons m.connected_list) + count a (delayed_cons m.delay_list)

-- Each id stands once at most and is not above the counter; a connection stands under its own id.
pub record IsValid (m : Manager) : Type 0 where
  pub once : (k : ℕ) → id_count m k ≤ 1
  pub given : (k : ℕ) → m.connect_squency < k → id_count m k ≡ 0
  pub own : (id con : ℕ) → Listed id con m.connected_list → m.connect_id con ≡ id
  pub positive : m.connect_squency < 2 ^ 63

Listed-live : (id con : ℕ) (es : List Connected) → Listed id con es → 1 ≤ count con (cons es)
Listed-live id con [] l = absurd l
Listed-live id con (e ∷ es) (inl p) = ground (arith, p.1)
Listed-live id con (e ∷ es) (inr l) = omega (arith, Listed-live id con es l)

-- What a sweep does to a manager.
pub record Deletes (now : ℕ) (m : Manager) (gone : List ℕ) (m' : Manager) : Type 0 where
  pub valid : IsValid m'
  pub overdue : AllOverdue (cur_time now) m.delay_list gone
  pub kept : (a : ℕ) → count a gone + live m' a ≡ live m a
  pub same_list : m'.connected_list ≡ m.connected_list
  pub same_counter : m'.connect_squency ≡ m.connect_squency

pub delete_dalay_con-Deletes :
    (now : ℕ) (m : Manager)
    → IsValid m
    → Deletes now m (delete_dalay_con now m).0 (delete_dalay_con now m).1
unfolding delete_dalay_con
delete_dalay_con-Deletes now m v =
    elim (Bool-cases (
      (ltb (cur_time now) (2 ^ 31) && ltb (m.del_time + delete_interval_times) (cur_time now))
      && not (length m.delay_list == 0))) [
        | inl time ↦ rw time (record {
          valid = record {
            once = λ k. omega (arith, v.once k, count_ids-sweep (cur_time now) k m.delay_list);
            given =
                λ k h. omega (arith, v.given k h, count_ids-sweep (cur_time now) k m.delay_list);
            own = v.own;
            positive = v.positive;
          };
          overdue = sweep-AllOverdue (cur_time now) m.delay_list;
          kept = λ a. omega (arith, count-sweep (cur_time now) a m.delay_list);
          same_list = refl;
          same_counter = refl;
        })
        | inr early ↦ rw early (record {
          valid = v;
          overdue = tt;
          kept = λ a. omega arith;
          same_list = refl;
          same_counter = refl;
        })
      ]

-- A connection put under the next id.
added : ℕ → Manager → Manager
added con s = record s {
  connect_squency = s.connect_squency + 1;
  connect_id = update s.connect_id con (s.connect_squency + 1);
  connected_list = record { id = s.connect_squency + 1; con = con } ∷ s.connected_list;
}

own_id :
    (ids_of : ℕ → ℕ) (con other id new : ℕ)
    → other ≢ con
    → ids_of other ≡ id
    → update ids_of con new other ≡ id
own_id ids_of con other id new ne e =
    let apart : (other == con) ≡ false = ground (arith, ne) in rw apart e

added-IsValid :
    (con : ℕ) (s : Manager)
    → IsValid s
    → live s con ≡ 0
    → s.connect_squency + 1 < 2 ^ 63
    → IsValid (added con s)
unfolding added
added-IsValid con s v none_live room = record {
  once = λ k. ground (arith, v.once k, v.given k);
  given = λ k h. ground (arith, v.given k);
  own = λ id c l. elim l [
    | inl p ↦ let same : (c == con) ≡ true = ground (arith, p.1) in rw same p.0
    | inr l' ↦
        own_id s.connect_id con c id _
          (λ e. omega (arith, Listed-live id con _ (rw e at l'), none_live)) (v.own id c l')
  ];
  positive = room;
}

-- What AddConnect does.
pub record Adds (con now : ℕ) (m : Manager) (r : List ℕ × Bool × Manager) : Type 0 where
  pub inserted : r.1 ≡ true
  pub valid : IsValid r.2
  pub overdue : AllOverdue (cur_time now) m.delay_list r.0
  pub kept : (a : ℕ) → count a r.0 + live r.2 a ≡ one_if con a + live m a

-- AddConnect of a connection that is in neither map, below 2 ^ 63 connections: the insertion goes well,
-- the connection is added to those that were live, each connection that is deleted was released more
-- than the delay ago, and each that was live is deleted once or stays live.
pub add_connect-Adds :
    (con now : ℕ) (m : Manager)
    → IsValid m
    → live m con ≡ 0
    → m.connect_squency + 1 < 2 ^ 63
    → Adds con now m (add_connect con now m)
unfolding add_connect added
add_connect-Adds con now m v none_live room =
    let d = delete_dalay_con-Deletes now m v in
    let s = (delete_dalay_con now m).1 in
    let low : ltb s.connect_squency (2 ^ 63) ≡ true = ground (arith, d.same_counter, room) in
    let new : has_connected (s.connect_squency + 1) s.connected_list ≡ false =
      has_connected_lem _ _ (omega (arith, d.valid.given (s.connect_squency + 1) (omega arith))) in
    rw (low, new)
      (record {
        inserted = refl;
        valid =
            added-IsValid con s d.valid (omega (arith, d.kept con, none_live))
              (omega (arith, d.same_counter, room));
        overdue = d.overdue;
        kept = λ a. omega (arith, d.kept a);
      })

-- What SetRelease does.
pub record Releases (con now : ℕ) (m : Manager) (r : Bool × Manager) : Type 0 where
  pub delayed : r.0 ≡ true
  pub valid : IsValid r.1
  pub waits : Waits now con r.1.delay_list
  pub kept : (a : ℕ) → live r.1 a ≡ live m a

Listed-erased :
    (id con k : ℕ) (es : List Connected) → Listed id con (erase_connected k es).1 → Listed id con es
unfolding erase_connected
Listed-erased id con k [] l = l
Listed-erased id con k (e ∷ es) l = elim (Bool-cases (e.id == k)) [
  | inl here ↦ inr (rw here at l)
  | inr on ↦ elim (rw on at l) [ inl p ↦ inl p | inr l' ↦ inr (Listed-erased id con k es l') ]
]

-- SetRelease of a connection that stands in the map of connected ones: it succeeds and moves the
-- connection to those that wait, from now on, and every connection stays live as often as it was.
pub set_release-Releases :
    (id con now : ℕ) (m : Manager)
    → IsValid m
    → Listed id con m.connected_list
    → Releases con now m (set_release con now m)
unfolding set_release
set_release-Releases id con now m v l =
    let key = v.own id con l in
    let r = erase_connected-Erases id con m.connected_list (omega (arith, v.once id)) l in
    let alone : has_delayed id m.delay_list ≡ false =
      has_delayed_lem id m.delay_list (ground (arith, v.once id, r.count_id id)) in
    rw (key, r.found, alone)
      (record {
        delayed = refl;
        valid = record {
          once = λ k. omega (arith, v.once k, r.count_id k);
          given = λ k h. omega (arith, v.given k h, r.count_id k);
          own = λ id' c l'. v.own id' c (Listed-erased id' c id m.connected_list l');
          positive = v.positive;
        };
        waits = inl (refl, refl);
        kept = λ a. omega (arith, r.count_con a);
      })
