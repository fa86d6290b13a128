-- ===== src/Client/Router/Served.antt =====
-- Every message that a client or its router is given comes to one end, and nothing null is called.
use libnbf.Prelude.{
  ℕ, ◌≡◌, ap, ◌∙◌, true, Option, none, some, arith, Option-cases, inl, inr, length, get_elem?, set,
  length-set, get_elem?-set_self,
}
use libnbf.Client.{
  ClientConnect, Client, Event, World, log, is_connected, is_working, with_connect, Ran,
}
use libnbf.Client.Router.{ClientRouter, take_client, get_valid_client, with_client}
use libnbf.Client.Router.Choice.{Searched, find_client-Searched, within}
use libnbf.Client.Router.Usable.{take_client-works}

-- An operation that returns, with what holds of its result and of the state that it leaves.
abbrev pub Served :
    {R S : Type 0} → (R → World → World → Type 0) → (S → Type 0) → World → Ran R S → Type 0
Served P Q w none = ⊥
Served P Q w (some (x, s, w')) = P x w w' × Q s

-- The client is one of the router's, as GetValidClient takes it.
abbrev pub TakenFrom : ClientRouter → Client → Type 0
TakenFrom r busy =
    (i : ℕ) × (c : Client) × (get_elem? r.clients i ≡ some c) × (take_client c ≡ some busy)

module _ {R : Type 0} (P : R → World → World → Type 0) (bad : R) (end : Event) where
  -- A connection that works does what it is to do.
  pub with_connect-Served :
      (act : ClientConnect → World → R × World) (c : Client) (w : World)
      → is_working c ≡ true
      → ((con : ClientConnect) → c.connect ≡ some con → P (act con w).0 w (act con w).1)
      → Served P (λ c'. Unit) w (with_connect bad end act c w)
  with_connect-Served act c w works p = elim (Option-cases c.connect) [
    | inl absent ↦ absurd (ground arith)
    | inr (con, present) ↦
        let good : is_connected con.status ≡ true = rw present at works in
        rw present (rw good (p con present, tt))
  ]

  -- The client goes back to its place.
  put_back :
      (r : ClientRouter) (n i : ℕ) (w : World) (out : Ran R Client)
      → length r.clients ≡ n
      → Served P (λ c. Unit) w out
      → Served P
          (λ r'. length r'.clients ≡ n)
          w
          (elim out [
            | none ↦ none
            | some (x, c', w') ↦ some (x, record r { clients = set r.clients i c' }, w')
          ])
  put_back r n i w none e s = absurd s
  put_back r n i w (some (x, c', w')) e s = (s.0, length-set r.clients i c' ∙ e)

  found_client :
      (act : Client → World → Ran R Client) (r : ClientRouter) (w : World) (o : Option ℕ)
      (r' : ClientRouter)
      → Searched (length r.clients) r o r'
      → P bad w (log end w)
      → ((c : Client) → is_working c ≡ true → TakenFrom r c → Served P (λ c'. Unit) w (act c w))
      → Served P
          (λ r''. length r''.clients ≡ length r.clients)
          w
          (elim o [
            | none ↦ some (bad, r', log end w)
            | some i ↦ elim (get_elem? r'.clients i) [
              | none ↦ none
              | some c ↦ elim (act c w) [
                | none ↦ none
                | some (x, c', w') ↦ some (x, record r' { clients = set r'.clients i c' }, w')
              ]
            ]
          ])
  found_client act r w none r' s p q = (p, ap (λ cs. length cs) s.0)
  found_client act r w (some i) r' (c, busy, at, taken, kept) p q =
      let here : get_elem? r'.clients i ≡ some busy =
        rw kept (get_elem?-set_self r.clients i busy (within r.clients i c at)) in
      let size : length r'.clients ≡ length r.clients = rw kept (length-set r.clients i busy) in
      rw here (
        put_back r' (length r.clients) i w (act busy w) size
          (q busy (take_client-works c busy taken) (i, c, at, taken)))

  pub with_client-Served :
      (act : Client → World → Ran R Client) (r : ClientRouter) (w : World)
      → P bad w (log end w)
      → ((c : Client) → is_working c ≡ true → TakenFrom r c → Served P (λ c'. Unit) w (act c w))
      → Served P (λ r'. length r'.clients ≡ length r.clients) w (with_client bad end act r w)
  unfolding with_client get_valid_client
  with_client-Served act r w p q =
      found_client act r w _ _ (find_client-Searched (length r.clients) r) p q
