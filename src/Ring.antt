-- ===== src/Ring.antt =====
-- src/common/lockfree_ringbuffer.h: the ring buffer between threads. The spin lock makes push and pop
-- one step each. `slots` are the elements of the block, which has `real_queue_size` of them; a push or
-- pop that accesses the memory behind them is none.
pub mod Slots
pub mod Queue
use libnbf.Prelude.{
  ℕ, zero, suc, ◌+◌, ◌-◌, ◌*◌, ◌%◌, ◌^◌, Bool, true, false, ◌&&◌, ◌||◌, Option, none, some, leb,
  ltb, ◌==◌, if◌then◌else◌,
}
use libnbf.Prelude.Words.{sub64}
use libnbf.Prelude.Memory.{update}

pub record Ring (Data : Type 0) : Type 0 where
  pub first_init : Bool
  pub head : ℕ
  pub tail : ℕ
  pub real_queue_size : ℕ
  pub slots : ℕ → Data

-- `while (tmp_size < size) tmp_size <<= 1` from `tmp_size` on.
unfoldable pub power_from : ℕ → ℕ → ℕ → ℕ
power_from zero tmp_size size = tmp_size
power_from (suc fuel) tmp_size size =
    let rest = power_from fuel (tmp_size * 2) size in if ltb tmp_size size then rest else tmp_size

module _ {Data : Type 0} where
  -- init of a size of at most 2 ^ 31; the elements are cleared to `zeroed`.
  unfoldable pub init : ℕ → Data → Ring Data → Ring Data
  init size zeroed r =
      if r.first_init
      then record r {
        first_init = false;
        real_queue_size = power_from 32 1 size - 1;
        slots = λ i. zeroed;
      }
      else r

  -- head & real_queue_size, for a size that is one below a power of two.
  abbrev pub slot_of : Ring Data → ℕ → ℕ
  slot_of r i = i % (r.real_queue_size + 1)

  -- queue_vec[head & real_queue_size_] is an element of the block.
  abbrev pub in_block : Ring Data → ℕ → Bool
  in_block r i = ltb (slot_of r i) r.real_queue_size

  unfoldable pub push : Data → Ring Data → Option (Bool × Ring Data)
  push x r =
      if leb r.real_queue_size (sub64 r.head r.tail)
      then some (false, r)
      else if in_block r r.head
      then some (
        true,
        record r { slots = update r.slots (slot_of r r.head) x; head = (r.head + 1) % 2 ^ 64 },
      )
      else none

  unfoldable pub pop : Ring Data → Option (Option Data × Ring Data)
  pop r =
      if (r.tail == r.head) || (ltb r.head r.tail && leb r.real_queue_size (sub64 r.head r.tail))
      then some (none, r)
      else if in_block r r.tail
      then some (some (r.slots (slot_of r r.tail)), record r { tail = (r.tail + 1) % 2 ^ 64 })
      else none

  unfoldable pub size : Ring Data → ℕ
  size r = sub64 r.head r.tail
