-- ===== src/Client/Routers/Stocked.antt =====
-- The routers of ClientMgr: Start gives every name a router, and no operation divides by zero.

use libnbf.Prelude.{
  ℕ, zero, suc, ◌<◌, ◌≡◌, refl, ap, sym, Bool, List, [], ◌∷◌, Option, none, some, arith,
  Option-cases, Bool-cases, inl, inr, length, get_elem?, set, length-set,
}
use libnbf.Client.{ClientConnect, Event, World, log, Ran}
use libnbf.Client.Router.{ClientRouter, router_start}
use libnbf.Client.Router.Served.{Served}
use libnbf.Client.Routers.{
  ClientRouters, at_slot, ClientConfig, ClientRouterConfig, start_routers, same_name, RouterMaps,
  get_client_routers, put_client_routers, mgr_start, with_routers,
}

-- Routers that have one to send to.
abbrev pub IsStocked : ClientRouters → Type 0
IsStocked rs = 0 < length rs.client_routers

abbrev pub AllStocked : RouterMaps → Type 0
AllStocked [] = Unit
AllStocked (e ∷ maps) = IsStocked e.1 × AllStocked maps

some_inj : {a b : ClientRouters} → ◌≡◌ {A = Option ClientRouters} (some a) (some b) → a ≡ b
some_inj {a = a} e = ap (λ o. elim o [ none ↦ a | some x ↦ x ]) e

beyond : (rs : List ClientRouter) (i : ℕ) → i < length rs → get_elem? rs i ≡ none → ⊥
beyond [] i h e = omega (arith, h)
beyond (r ∷ rs) zero h e = cc
beyond (r ∷ rs) (suc i) h e = beyond rs i (omega (arith, h)) e

get_IsStocked :
    (name : List ℕ) (maps : RouterMaps) (rs : ClientRouters)
    → AllStocked maps
    → get_client_routers name maps ≡ some rs
    → IsStocked rs
unfolding get_client_routers
get_IsStocked name [] rs s e = cc
get_IsStocked name (x ∷ maps) rs s e = elim (Bool-cases (same_name x.0 name)) [
  | inl here ↦ rw (sym (some_inj (rw here at e))) s.0
  | inr on ↦ get_IsStocked name maps rs s.1 (rw on at e)
]

put_AllStocked :
    (name : List ℕ) (rs : ClientRouters) (maps : RouterMaps)
    → IsStocked rs
    → AllStocked maps
    → AllStocked (put_client_routers name rs maps)
unfolding put_client_routers
put_AllStocked name rs [] h s = (h, tt)
put_AllStocked name rs (x ∷ maps) h s = elim (Bool-cases (same_name x.0 name)) [
  | inl here ↦ rw here (h, s.1)
  | inr on ↦ rw on (s.0, put_AllStocked name rs maps h s.1)
]

module _ {R : Type 0} (P : R → World → World → Type 0) (bad : R) (end : Event) where
  slot_back :
      (slot : ℕ) (rs : ClientRouters) (n : ℕ) (w : World) (out : Ran R ClientRouter)
      → IsStocked rs
      → Served P (λ r'. length r'.clients ≡ n) w out
      → Served P IsStocked w (elim out [
        | none ↦ none
        | some (x, r', w') ↦
            some (x, record rs { client_routers = set rs.client_routers slot r' }, w')
      ])
  slot_back slot rs n w none h s = absurd s
  slot_back slot rs n w (some (x, r', w')) h s = (s.0, rw (length-set rs.client_routers slot r') h)

  pub at_slot-Served :
      (act : ClientRouter → World → Ran R ClientRouter) (slot : ℕ) (rs : ClientRouters) (w : World)
      → slot < length rs.client_routers
      → ((r : ClientRouter)
          → get_elem? rs.client_routers slot ≡ some r
          → Served P (λ r'. length r'.clients ≡ length r.clients) w (act r w))
      → Served P IsStocked w (at_slot act slot rs w)
  at_slot-Served act slot rs w h q = elim (Option-cases (get_elem? rs.client_routers slot)) [
    | inl out ↦ absurd (beyond rs.client_routers slot h out)
    | inr (r, at) ↦
        rw (at, Served)
          (slot_back slot rs (length r.clients) w (act r w) (omega (arith, h)) (q r at))
  ]

  maps_back :
      (name : List ℕ) (maps : RouterMaps) (w : World) (out : Ran R ClientRouters)
      → AllStocked maps
      → Served P IsStocked w out
      → Served P AllStocked w (elim out [
        | none ↦ none
        | some (x, rs', w') ↦ some (x, put_client_routers name rs' maps, w')
      ])
  maps_back name maps w none s o = absurd o
  maps_back name maps w (some (x, rs', w')) s o = (o.0, put_AllStocked name rs' maps o.1 s)

  pub with_routers-Served :
      (act : ClientRouters → World → Ran R ClientRouters) (name : List ℕ) (maps : RouterMaps)
      (w : World)
      → AllStocked maps
      → P bad w (log end w)
      → ((rs : ClientRouters)
          → get_client_routers name maps ≡ some rs
          → IsStocked rs
          → Served P IsStocked w (act rs w))
      → Served P AllStocked w (with_routers bad end act name maps w)
  with_routers-Served act name maps w s p q = elim (Option-cases (get_client_routers name maps)) [
    | inl unknown ↦ rw (unknown, Served) (p, s)
    | inr (rs, known) ↦
        rw (known, Served)
          (maps_back name maps w (act rs w) s (q rs known (get_IsStocked name maps rs s known)))
  ]

abbrev pub AllAddressed : List ClientRouterConfig → Type 0
AllAddressed [] = Unit
AllAddressed (cfg ∷ cfgs) = (0 < length cfg.clients) × AllAddressed cfgs

Started : Option (List ClientRouter) → ℕ → Type 0
Started none n = Unit
Started (some rs) n = length rs ≡ n

one_more :
    (o : Option ClientRouter) (os : Option (List ClientRouter)) (n : ℕ)
    → Started os n
    → Started
        (elim o [ none ↦ none | some r ↦ elim os [ none ↦ none | some rs ↦ some (r ∷ rs) ] ])
        (suc n)
unfolding Started
one_more none os n e = tt
one_more (some r) none n e = tt
one_more (some r) (some rs) n e = omega (arith, e)

start_routers-Started :
    (try_connect : ClientConfig → ℕ → Option ClientConnect) (sigle : Bool) (cs : List ClientConfig)
    → Started (start_routers try_connect sigle cs) (length cs)
unfolding start_routers Started
start_routers-Started try_connect sigle [] = refl
start_routers-Started try_connect sigle (c ∷ cs) =
    one_more (router_start (try_connect c) sigle c.single_addr_connect_count)
      (start_routers try_connect sigle cs) (length cs) (start_routers-Started try_connect sigle cs)

-- ClientMgr::Start where every configured name has an address: whichever clients fail to start, every
-- name that is then in the map has a router to send to.
pub mgr_start-AllStocked :
    (try_connect : ClientConfig → ℕ → Option ClientConnect) (cfgs : List ClientRouterConfig)
    (maps : RouterMaps)
    → AllAddressed cfgs
    → AllStocked maps
    → AllStocked (mgr_start try_connect cfgs maps).1
unfolding mgr_start Started
mgr_start-AllStocked try_connect [] maps a s = s
mgr_start-AllStocked try_connect (cfg ∷ cfgs) maps a s =
    elim (Option-cases (get_client_routers cfg.name maps)) [
      | inr (old, known) ↦ rw (known, mgr_start) (mgr_start-AllStocked try_connect cfgs maps a.1 s)
      | inl new ↦
          elim (Option-cases (start_routers try_connect cfg.sigle_send_sigle_recv cfg.clients)) [
            | inl failed ↦ rw (new, mgr_start) (rw failed s)
            | inr (rs, up) ↦
                let size : length rs ≡ length cfg.clients =
                  rw up at
                    (start_routers-Started try_connect cfg.sigle_send_sigle_recv cfg.clients) in
                rw (new, mgr_start)
                  (rw up (
                    mgr_start-AllStocked try_connect cfgs _ a.1 (
                      put_AllStocked cfg.name (record { client_routers = rs; current = 0 }) maps
                        (omega (arith, size, a.0)) s)))
          ]
    ]
