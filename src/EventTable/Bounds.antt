-- ===== src/EventTable/Bounds.antt =====
-- No operation of the event table leaves its block.
use libnbf.Prelude.{
  ℕ, zero, suc, ◌+◌, ◌^◌, ◌≤◌, ◌<◌, ◌≡◌, refl, Bool, true, false, if◌then◌else◌, ◌&&◌, Option, none,
  some, arith, List, [], ◌∷◌, leb, ltb, Bool-cases, Option-cases, inl, inr,
}
use libnbf.Prelude.Clib.{ℤ, pos, negsuc}
use libnbf.EventTable.{
  FdEvent, Driver, incr_fd2data, grown_size, re_init_event_data, put_event, add_new, add_at, add,
  del_at, del, modr, modw, modrw, mod_at, mod_event,
}

-- Descriptors in use lie in the block.
abbrev pub IsValid : Driver → Type 0
IsValid d = d.descriptors ≤ d.fd2data_size + 1

-- An operation that stays inside the block and leaves a valid table.
abbrev pub Stays : {R : Type 0} → Option (R × Driver) → Type 0
Stays none = ⊥
Stays (some (r, d)) = IsValid d

-- For a descriptor that leaves an int room for one step more, the table grows to hold it.
grown_size_enough :
    (fuel size fd : ℕ)
    → fd ≤ size + fuel
    → fd + incr_fd2data < 2 ^ 31
    → (n : ℕ) × (grown_size fuel size fd ≡ some n) × (fd ≤ n)
unfolding grown_size
grown_size_enough zero size fd h room = (size, refl, omega arith)
grown_size_enough (suc fuel) size fd h room = elim (Bool-cases (ltb size fd)) [
  | inl short ↦
      let fits : ltb (size + incr_fd2data) (2 ^ 31) ≡ true = ground arith in
      rw (short, fits) (grown_size_enough fuel (size + incr_fd2data) fd (omega arith) room)
  | inr enough ↦ rw enough (size, refl, ground arith)
]

put_event-Stays :
    (fd ezfd : ℕ) (epoll_ctl : Bool) (d : Driver)
    → fd ≤ d.fd2data_size
    → IsValid d
    → Stays (put_event fd ezfd epoll_ctl d)
put_event-Stays fd ezfd epoll_ctl d h v =
    let inside : leb fd d.fd2data_size ≡ true = ground arith in
    elim (Bool-cases epoll_ctl) [
      | inl done ↦ rw (inside, done) v
      | inr failed ↦ rw (inside, failed) v
    ]

re_init-grows :
    (realloc : Bool) (fd : ℕ) (d : Driver)
    → d.fd2data_size < fd
    → fd + incr_fd2data < 2 ^ 31
    → (got : Bool) × (d' : Driver) × (re_init_event_data realloc fd d ≡ some (got, d'))
      × (got ≡ true → fd ≤ d'.fd2data_size)
unfolding re_init_event_data
re_init-grows realloc fd d beyond room =
    let fits : ltb (d.fd2data_size + incr_fd2data) (2 ^ 31) ≡ true = ground arith in
    let g = grown_size_enough fd (d.fd2data_size + incr_fd2data) fd (omega arith) room in
    elim (Bool-cases realloc) [
      | inl given ↦ (
        true,
        record d {
          fd2data = λ i. if leb i d.fd2data_size then d.fd2data i else none;
          fd2data_size = g.0;
        },
        rw (fits, re_init_event_data) (rw g.1 (rw given refl)),
        λ e. g.2,
      )
      | inr failed ↦ (false, d, rw (fits, re_init_event_data) (rw g.1 (rw failed refl)), λ e. cc)
    ]

add_new-Stays :
    (fd ezfd : ℕ) (realloc epoll_ctl : Bool) (d : Driver)
    → fd + incr_fd2data < 2 ^ 31
    → IsValid d
    → Stays (add_new fd ezfd realloc epoll_ctl d)
unfolding add_new
add_new-Stays fd ezfd realloc epoll_ctl d room v = elim (Bool-cases (leb d.descriptors fd)) [
  | inl above ↦ elim (Bool-cases (ltb d.fd2data_size fd)) [
    | inl beyond ↦
        let g = re_init-grows realloc fd d (ground arith) room in
        elim (Bool-cases g.0) [
          | inl got ↦
              rw (above, beyond, add_new)
                (rw g.2
                  (rw got (put_event-Stays fd ezfd epoll_ctl _ (g.3 got) (omega (arith, g.3 got)))))
          | inr failed ↦ rw (above, beyond, add_new) (rw g.2 (rw failed v))
        ]
    | inr within ↦
        rw (above, within) (put_event-Stays fd ezfd epoll_ctl _ (ground arith) (ground arith))
  ]
  | inr below ↦ rw below (put_event-Stays fd ezfd epoll_ctl d (ground arith) v)
]

add-Stays :
    (fd ezfd : ℕ) (realloc epoll_ctl : Bool) (d : Driver)
    → fd + incr_fd2data < 2 ^ 31
    → IsValid d
    → Stays (add_at fd ezfd realloc epoll_ctl d)
unfolding add_at
add-Stays fd ezfd realloc epoll_ctl d room v =
    elim (Bool-cases (ltb 0 fd && ltb fd d.fd2data_size)) [
      | inl low ↦
          let inside : leb fd d.fd2data_size ≡ true = ground arith in
          elim (Option-cases (d.fd2data fd)) [
            | inl free ↦
                rw (low, inside, Stays) (rw free (add_new-Stays fd ezfd realloc epoll_ctl d room v))
            | inr (old, at) ↦ rw (low, inside, Stays) (rw at v)
          ]
      | inr high ↦ rw (high, Stays) (add_new-Stays fd ezfd realloc epoll_ctl d room v)
    ]

mod_at-Stays :
    (change : FdEvent → FdEvent) (fd : ℕ) (epoll_ctl : Bool) (d : Driver)
    → IsValid d
    → Stays (mod_at change fd epoll_ctl d)
unfolding mod_at
mod_at-Stays change fd epoll_ctl d v = elim (Bool-cases (ltb fd d.descriptors)) [
  | inl used ↦
      let inside : leb fd d.fd2data_size ≡ true = ground arith in
      elim (Option-cases (d.fd2data fd)) [
        | inl null ↦ rw (used, inside, Stays) (rw null v)
        | inr (found, at) ↦ rw (used, inside, Stays) (rw at v)
      ]
  | inr unused ↦ rw unused v
]

mod_event-Stays :
    (change : FdEvent → FdEvent) (fd : ℤ) (epoll_ctl : Bool) (d : Driver)
    → IsValid d
    → Stays (mod_event change fd epoll_ctl d)
unfolding mod_event
mod_event-Stays change (pos fd) epoll_ctl d v = mod_at-Stays change fd epoll_ctl d v
mod_event-Stays change (negsuc n) epoll_ctl d v = v

del_at-Stays : (fd : ℕ) (d : Driver) → IsValid d → Stays (del_at fd d)
unfolding del_at
del_at-Stays fd d v = elim (Bool-cases (ltb fd d.descriptors)) [
  | inl used ↦
      let inside : leb fd d.fd2data_size ≡ true = ground arith in
      elim (Option-cases (d.fd2data fd)) [
        | inl null ↦ rw (used, inside, Stays) (rw null v)
        | inr (found, at) ↦ elim (Bool-cases d.inloop) [
          | inl running ↦ rw (used, inside, Stays) (rw (at, running) v)
          | inr idle ↦ rw (used, inside, Stays) (rw (at, idle) v)
        ]
      ]
  | inr unused ↦ rw unused v
]

del-Stays : (fd : ℤ) (d : Driver) → IsValid d → Stays (del fd d)
unfolding del
del-Stays (pos fd) d v = del_at-Stays fd d v
del-Stays (negsuc n) d v = v

-- The calls that other parts make, with what realloc and epoll_ctl return to them.
pub data Call : Type 0 where
  add_call : (fd : ℤ) (ezfd : ℕ) (realloc epoll_ctl : Bool) → Call
  del_call : (fd : ℤ) → Call
  modr_call : (fd : ℤ) (set epoll_ctl : Bool) → Call
  modw_call : (fd : ℤ) (set epoll_ctl : Bool) → Call
  modrw_call : (fd : ℤ) (set epoll_ctl : Bool) → Call

-- The descriptor of Add is not negative and leaves an int room for one step of the table's growth.
abbrev pub Fits : Call → Type 0
Fits (add_call (pos fd) ezfd realloc epoll_ctl) = fd + incr_fd2data < 2 ^ 31
Fits (add_call (negsuc n) ezfd realloc epoll_ctl) = ⊥
Fits (del_call fd) = Unit
Fits (modr_call fd set epoll_ctl) = Unit
Fits (modw_call fd set epoll_ctl) = Unit
Fits (modrw_call fd set epoll_ctl) = Unit

abbrev pub AllFit : List Call → Type 0
AllFit [] = Unit
AllFit (c ∷ cs) = Fits c × AllFit cs

abbrev pub state_of : {R : Type 0} → Option (R × Driver) → Option Driver
state_of none = none
state_of (some (r, d)) = some d

abbrev pub call : Call → Driver → Option Driver
call (add_call fd ezfd realloc epoll_ctl) d = state_of (add fd ezfd realloc epoll_ctl d)
call (del_call fd) d = state_of (del fd d)
call (modr_call fd set epoll_ctl) d = state_of (modr fd set epoll_ctl d)
call (modw_call fd set epoll_ctl) d = state_of (modw fd set epoll_ctl d)
call (modrw_call fd set epoll_ctl) d = state_of (modrw fd set epoll_ctl d)

abbrev pub IsInside : Option Driver → Type 0
IsInside none = ⊥
IsInside (some d) = IsValid d

state-IsInside : {R : Type 0} (o : Option (R × Driver)) → Stays o → IsInside (state_of o)
state-IsInside none s = absurd s
state-IsInside (some (r, d)) s = s

call-IsInside : (c : Call) (d : Driver) → Fits c → IsValid d → IsInside (call c d)
unfolding add modr modw modrw
call-IsInside (add_call (pos fd) ezfd realloc epoll_ctl) d f v =
    state-IsInside _ (add-Stays fd ezfd realloc epoll_ctl d f v)
call-IsInside (add_call (negsuc n) ezfd realloc epoll_ctl) d f v = absurd f
call-IsInside (del_call fd) d f v = state-IsInside _ (del-Stays fd d v)
call-IsInside (modr_call fd set epoll_ctl) d f v =
    state-IsInside _ (mod_event-Stays _ fd epoll_ctl d v)
call-IsInside (modw_call fd set epoll_ctl) d f v =
    state-IsInside _ (mod_event-Stays _ fd epoll_ctl d v)
call-IsInside (modrw_call fd set epoll_ctl) d f v =
    state-IsInside _ (mod_event-Stays _ fd epoll_ctl d v)

abbrev pub calls_from : List Call → Driver → Option Driver
calls_from [] d = some d
calls_from (c ∷ cs) d = elim (call c d) [ none ↦ none | some d' ↦ calls_from cs d' ]

next_call :
    (cs : List Call) (o : Option Driver)
    → IsInside o
    → ((d : Driver) → IsValid d → IsInside (calls_from cs d))
    → IsInside (elim o [ none ↦ none | some d' ↦ calls_from cs d' ])
next_call cs none i f = absurd i
next_call cs (some d) i f = f d i

-- From a table whose descriptors lie in its block, such as a new one, no sequence of Add, Del, Modr, Modw
-- and Modrw reads or writes outside the block or overflows the int of its size, whatever realloc and
-- epoll_ctl return, and the descriptors lie in the block afterwards. The descriptors given to Add are not
-- negative and below 2 ^ 31 - 4096; those given to the others are any.
pub calls_from-IsInside :
    (cs : List Call) (d : Driver) → AllFit cs → IsValid d → IsInside (calls_from cs d)
calls_from-IsInside [] d f v = v
calls_from-IsInside (c ∷ cs) d f v =
    next_call cs (call c d) (call-IsInside c d f.0 v) (λ d' v'. calls_from-IsInside cs d' f.1 v')
