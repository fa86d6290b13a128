-- ===== src/EventTable.antt =====
-- src/event/event_data.cpp and event_driver.cpp: the table of a thread's events by their descriptor. A
-- result none is an access outside the table's block, or a sum that is too large for an int. epoll_ctl
-- and realloc are arguments, true for success. The bits EVENT_READ and EVENT_WRITE of event_ are two
-- fields. A negative descriptor is `negsuc`; what an operation does at the others has the suffix `_at`.
pub mod Bounds
use libnbf.Prelude.{
  ℕ, zero, suc, ◌+◌, ◌-◌, ◌^◌, ◌≤◌, Bool, true, false, not, ◌&&◌, ◌||◌, List, [], ◌∷◌, ◌++◌, Option,
  none, some, leb, ltb, ◌==◌, if◌then◌else◌,
}
use libnbf.Prelude.Clib.{ℤ, pos, negsuc}
use libnbf.Prelude.Memory.{update}

pub record FdEvent : Type 0 where
  pub fd : ℕ
  pub ezfd : ℕ
  pub event_read : Bool
  pub event_write : Bool
  pub closed : Bool

-- fd2data_ has one element more than its size. `descriptors` is maxfd_ + 1.
pub record Driver : Type 0 where
  pub fd2data : ℕ → Option FdEvent
  pub fd2data_size : ℕ
  pub descriptors : ℕ
  pub inloop : Bool
  pub closed_list : List FdEvent

abbrev pub incr_fd2data : ℕ
incr_fd2data = 4096

abbrev pub init_fd2data : ℕ
init_fd2data = 40960

-- InitEventData, where malloc succeeds, and Init.
unfoldable pub new_driver : Driver
new_driver = record {
  fd2data = λ fd. none;
  fd2data_size = init_fd2data;
  descriptors = 0;
  inloop = false;
  closed_list = [];
}

-- `data_size_tmp + incr_fd2data` as an int.
abbrev pub next_size : ℕ → Option ℕ
next_size data_size_tmp =
    if ltb (data_size_tmp + incr_fd2data) (2 ^ 31)
    then some (data_size_tmp + incr_fd2data)
    else none

-- `while (data_size_tmp < fd) data_size_tmp += incr_fd2data`, for so many rounds.
unfoldable pub grown_size : ℕ → ℕ → ℕ → Option ℕ
grown_size zero data_size_tmp fd = some data_size_tmp
grown_size (suc fuel) data_size_tmp fd =
    let rest = grown_size fuel (data_size_tmp + incr_fd2data) fd in
    if ltb data_size_tmp fd
    then (if ltb (data_size_tmp + incr_fd2data) (2 ^ 31) then rest else none)
    else some data_size_tmp

-- ReInitEventData; what stands behind the old elements is cleared. `fd` rounds are enough.
unfoldable pub re_init_event_data : Bool → ℕ → Driver → Option (Bool × Driver)
re_init_event_data realloc fd d = elim (next_size d.fd2data_size) [
  | none ↦ none
  | some first ↦ elim (grown_size fd first fd) [
    | none ↦ none
    | some size ↦ some (
        if realloc
        then (
          true,
          record d {
            fd2data = λ i. if leb i d.fd2data_size then d.fd2data i else none;
            fd2data_size = size;
          },
        )
        else (false, d))
  ]
]

-- fd2data_[fd]
abbrev pub read_event : ℕ → Driver → Option (Option FdEvent)
read_event fd d = if leb fd d.fd2data_size then some (d.fd2data fd) else none

-- What Add returns: 0, -1, -2 or -3.
pub data AddCode : Type 0 where
  added repeated no_memory refused : AddCode

-- The end of Add, behind the growth: none where the element is outside the block.
abbrev pub put_event : ℕ → ℕ → Bool → Driver → Option (AddCode × Driver)
put_event fd ezfd epoll_ctl d =
    let fd_event : FdEvent = record {
      fd = fd;
      ezfd = ezfd;
      event_read = false;
      event_write = false;
      closed = false;
    } in
    if leb fd d.fd2data_size
    then some (
        if epoll_ctl
        then (added, record d { fd2data = update d.fd2data fd (some fd_event) })
        else (refused, record d { fd2data = update d.fd2data fd none }))
    else none

-- Add of a descriptor that the check for a repeated one lets pass.
unfoldable pub add_new : ℕ → ℕ → Bool → Bool → Driver → Option (AddCode × Driver)
add_new fd ezfd realloc epoll_ctl d =
    let put = put_event fd ezfd epoll_ctl (record d { descriptors = fd + 1 }) in
    let grown : Option (AddCode × Driver) = elim (re_init_event_data realloc fd d) [
      | none ↦ none
      | some (got, d') ↦
          let put_grown = put_event fd ezfd epoll_ctl (record d' { descriptors = fd + 1 }) in
          if got then put_grown else some (no_memory, d)
    ] in
    if leb d.descriptors fd
    then (if ltb d.fd2data_size fd then grown else put)
    else put_event fd ezfd epoll_ctl d

unfoldable pub add_at : ℕ → ℕ → Bool → Bool → Driver → Option (AddCode × Driver)
add_at fd ezfd realloc epoll_ctl d =
    let seen = if ltb 0 fd && ltb fd d.fd2data_size then read_event fd d else some none in
    elim seen [
      | none ↦ none
      | some old ↦ elim old [
        | none ↦ add_new fd ezfd realloc epoll_ctl d
        | some fd_event ↦ some (repeated, d)
      ]
    ]

-- EventDriver::Add. A negative descriptor is neither repeated nor above maxfd_, and the event is written
-- in front of the block.
unfoldable pub add : ℤ → ℕ → Bool → Bool → Driver → Option (AddCode × Driver)
add (pos fd) ezfd realloc epoll_ctl d = add_at fd ezfd realloc epoll_ctl d
add (negsuc n) ezfd realloc epoll_ctl d = none

-- ReInitClosed puts the event into the closed list while the loop runs; its lock makes it one step, and
-- its realloc is taken to succeed.
abbrev pub close_event : FdEvent → Driver → Driver
close_event fd_event d =
    if d.inloop
    then record d { closed_list = d.closed_list ++ (record fd_event { closed = true } ∷ []) }
    else d

unfoldable pub del_at : ℕ → Driver → Option (Bool × Driver)
del_at fd d =
    if ltb fd d.descriptors
    then elim (read_event fd d) [
      | none ↦ none
      | some old ↦ some (elim old [
        | none ↦ (false, d)
        | some fd_event ↦
            (true, record (close_event fd_event d) { fd2data = update d.fd2data fd none })
      ])
    ]
    else some (false, d)

-- EventDriver::Del: false is -2.
unfoldable pub del : ℤ → Driver → Option (Bool × Driver)
del (pos fd) d = del_at fd d
del (negsuc n) d = some (false, d)

unfoldable pub mod_at : (FdEvent → FdEvent) → ℕ → Bool → Driver → Option (Bool × Driver)
mod_at change fd epoll_ctl d =
    if ltb fd d.descriptors
    then elim (read_event fd d) [
      | none ↦ none
      | some old ↦ some (elim old [
        | none ↦ (false, d)
        | some fd_event ↦
            (epoll_ctl, record d { fd2data = update d.fd2data fd (some (change fd_event)) })
      ])
    ]
    else some (false, d)

-- The common part of Modr, Modw and Modrw: false is -1 or -2.
unfoldable pub mod_event : (FdEvent → FdEvent) → ℤ → Bool → Driver → Option (Bool × Driver)
mod_event change (pos fd) epoll_ctl d = mod_at change fd epoll_ctl d
mod_event change (negsuc n) epoll_ctl d = some (false, d)

unfoldable pub modr : ℤ → Bool → Bool → Driver → Option (Bool × Driver)
modr fd set = mod_event (λ fd_event. record fd_event { event_read = set }) fd

unfoldable pub modw : ℤ → Bool → Bool → Driver → Option (Bool × Driver)
modw fd set = mod_event (λ fd_event. record fd_event { event_write = set }) fd

unfoldable pub modrw : ℤ → Bool → Bool → Driver → Option (Bool × Driver)
modrw fd set = mod_event (λ fd_event. record fd_event { event_read = set; event_write = set }) fd
