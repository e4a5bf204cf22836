-- ===== src/Mbuf/Safety.antt =====
-- A cursor stays inside its buffer, and writers touch only what lies ahead of it.
use accelio.Prelude.{ℕ, ◌+◌, ◌≤◌, ◌<◌, ◌^◌, arith, length}
use accelio.Wire.{Buffer, write_uint8, write_uint16, write_uint32, write_uint64}
use accelio.Wire.Store.{length-put_bytes}
use accelio.Wire.Integers.{
  length-write_uint8, length-write_uint16, length-write_uint32, length-write_uint64,
}
use accelio.Mbuf.{Mbuf, offset}
use accelio.Mbuf.Io.{write_u8, write_u16, write_u32, write_u64, write_array}

pub record IsValid (m : Mbuf) : Type 0 where
  pub base_le : m.base ≤ m.head
  pub head_le : m.head ≤ m.curr
  pub curr_le : m.curr ≤ m.tail
  pub tail_le : m.tail ≤ m.base + length m.mem
  pub low : m.tail < 2 ^ 63
  pub tlv_le : m.tlv_tail ≤ m.tail

-- In a buffer that ends below the address 2^63, the writers of 8, 16, 32 and 64 bits, and that of
-- arrays shorter than 2^63 bytes, keep the cursor in the buffer, also where they fail.
pub writers-IsValid :
    (m : Mbuf) (v : ℕ) (array : Buffer)
    → IsValid m
    → length array < 2 ^ 63
    → IsValid (write_u8 m v).1
      × IsValid (write_u16 m v).1
      × IsValid (write_u32 m v).1
      × IsValid (write_u64 m v).1
      × IsValid (write_array m array).1
unfolding write_u8 write_u16 write_u32 write_u64 write_array write_uint8 write_uint16 write_uint32
    write_uint64
writers-IsValid m v array h small = (
  ground (arith, length-write_uint8 v (offset m m.curr) m.mem),
  ground (arith, length-write_uint16 v (offset m m.curr) m.mem),
  ground (arith, length-write_uint32 v (offset m m.curr) m.mem),
  ground (arith, length-write_uint64 v (offset m m.curr) m.mem),
  ground (arith, length-put_bytes array (offset m m.curr) m.mem),
)
