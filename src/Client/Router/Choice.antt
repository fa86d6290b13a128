-- ===== src/Client/Router/Choice.antt =====
-- GetValidClient finds a client that can be used, if there is one.
use native.Mathlib.Nat.{mod-add-mod, mod-eq_of_lt, add-mod_right, mod-lt}
use libnbf.Prelude.{
  ℕ, zero, suc, ◌+◌, ◌-◌, ◌%◌, ◌^◌, ◌≤◌, ◌<◌, ◌≡◌, refl, ap, sym, ◌∙◌, true, List, ◌∷◌, [], Option,
  none, some, arith, ltb, leb, Bool-cases, inl, inr, Option-cases, length, get_elem?, set,
}
use libnbf.Client.{ClientConnect, Client}
use libnbf.Client.Router.Usable.{Usable, Takes, take_client-Takes, take_client-unusable}
use libnbf.Client.Router.{
  ClientRouter, slot_of, next_of, take_client, find_client, get_valid_client,
}

-- Counting on from any number meets each place of `n` within a lap.
lap : (c n i : ℕ) → i < n → (j : ℕ) × (j < n) × ((c + j) % n ≡ i)
lap c n i h = elim (Bool-cases (leb (c % n) i)) [
  | inl after ↦
      let whole : c % n + (i - c % n) ≡ i = ground arith in
      (i - c % n, omega arith, sym (mod-add-mod c n (i - c % n)) ∙ rw whole (mod-eq_of_lt h))
  | inr before ↦
      let small = mod-lt c {m = n} (omega arith) in
      let whole : c % n + (n - c % n + i) ≡ i + n = ground (arith, small) in
      (
        n - c % n + i,
        ground (arith, small),
        sym (mod-add-mod c n (n - c % n + i)) ∙ rw whole (add-mod_right i n ∙ mod-eq_of_lt h),
      )
]

-- What a search of `left` rounds tells: the client it took, or that none of those it saw can be taken.
abbrev pub Searched : ℕ → ClientRouter → Option ℕ → ClientRouter → Type 0
Searched left r none r' =
    (r'.clients ≡ r.clients)
    × (r.current + left ≤ 2 ^ 31
        → (j : ℕ) → j < left
        → (c : Client) → get_elem? r.clients ((r.current + j) % length r.clients) ≡ some c
        → take_client c ≡ none)
Searched left r (some i) r' =
    (c : Client) × (busy : Client) × (get_elem? r.clients i ≡ some c)
    × (take_client c ≡ some busy)
    × (r'.clients ≡ set r.clients i busy)

slot_plain :
    (current left n : ℕ) → current + suc left ≤ 2 ^ 31 → slot_of current n ≡ (current + 0) % n
slot_plain current left n h =
    let low : ltb current (2 ^ 31) ≡ true = ground arith in rw low (ap (λ x. x % n) (omega arith))

next_plain : (current left : ℕ) → current + suc left ≤ 2 ^ 31 → next_of current ≡ current + 1
next_plain current left h = omega arith

-- A round that takes no client, in front of the others.
one_miss :
    (left : ℕ) (r : ClientRouter) (o : Option ℕ) (r' : ClientRouter)
    → ((c : Client)
        → get_elem? r.clients (slot_of r.current (length r.clients)) ≡ some c
        → take_client c ≡ none)
    → Searched left (record r { current = next_of r.current }) o r'
    → Searched (suc left) r o r'
one_miss left r none r' miss rest = (
  rest.0,
  λ room j h c e.
      elim j as (λ j'. j ≡ j' → take_client c ≡ none) [
        | zero ↦ λ z. miss c (rw (slot_plain r.current left (length r.clients) room, sym z) e)
        | suc k ↦ λ z.
            let next = next_plain r.current left room in
            let place : next_of r.current + k ≡ r.current + j = omega (arith, next, z) in
            rest.1 (omega (arith, next)) k (omega (arith, z)) c (rw place e)
      ]
        refl,
)
one_miss left r (some i) r' miss rest = rest

pub find_client-Searched :
    (left : ℕ) (r : ClientRouter) → Searched left r (find_client left r).0 (find_client left r).1
unfolding find_client
find_client-Searched zero r = (refl, λ few j h. absurd (omega arith))
find_client-Searched (suc left) r =
    let i = slot_of r.current (length r.clients) in
    let ih = find_client-Searched left (record r { current = next_of r.current }) in
    elim (Option-cases (get_elem? r.clients i)) [
      | inl out ↦
          let miss : (c : Client) → get_elem? r.clients i ≡ some c → take_client c ≡ none =
            λ c e. cc in
          rw (out, find_client) (one_miss left r _ _ miss ih)
      | inr (c, at) ↦ elim (Option-cases (take_client c)) [
        | inl no_use ↦
            let miss : (d : Client) → get_elem? r.clients i ≡ some d → take_client d ≡ none =
              λ d e. cc in
            rw (at, find_client) (rw no_use (one_miss left r _ _ miss ih))
        | inr (busy, taken) ↦ rw (at, find_client) (rw taken (c, busy, at, taken, refl))
      ]
    ]

-- What GetValidClient tells of the list that it has searched.
abbrev pub Chosen : ClientRouter → Option ℕ → ClientRouter → Type 0
Chosen r none r' =
    (r'.clients ≡ r.clients)
    × ((i : ℕ) (c : Client)
        → get_elem? r.clients i ≡ some c
        → (con : ClientConnect) → ¬ (Usable c con))
Chosen r (some i) r' =
    (c : Client) × (busy : Client) × (get_elem? r.clients i ≡ some c)
    × Takes c busy
    × (r'.clients ≡ set r.clients i busy)

pub within : (cs : List Client) (i : ℕ) (c : Client) → get_elem? cs i ≡ some c → i < length cs
within [] i c e = cc
within (x ∷ cs) zero c e = omega arith
within (x ∷ cs) (suc i) c e = omega (arith, within cs i c e)

Searched-Chosen :
    (r : ClientRouter) (o : Option ℕ) (r' : ClientRouter)
    → r.current + length r.clients ≤ 2 ^ 31
    → Searched (length r.clients) r o r'
    → Chosen r o r'
Searched-Chosen r none r' room s = (
  s.0,
  λ i c e.
      let at = lap r.current (length r.clients) i (within r.clients i c e) in
      take_client-unusable c (s.1 room at.0 at.1 c (rw at.2 e)),
)
Searched-Chosen r (some i) r' room (c, busy, at, taken, kept) =
    (c, busy, at, take_client-Takes c busy taken, kept)

-- GetValidClient, where the counter does not pass 2 ^ 31 during its round: if it returns a client, that
-- client is over a connection that is connected, and that is not busy where it is a synchronous one
-- for single sends; such a connection is then busy, and nothing else of the client and no other client
-- changes. If it returns none, no client changes and no client of the list can be used in this sense.
pub get_valid_client-Chosen :
    (r : ClientRouter)
    → r.current + length r.clients ≤ 2 ^ 31
    → Chosen r (get_valid_client r).0 (get_valid_client r).1
unfolding get_valid_client
get_valid_client-Chosen r room =
    Searched-Chosen r _ _ room (find_client-Searched (length r.clients) r)
