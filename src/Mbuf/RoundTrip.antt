-- ===== src/Mbuf/RoundTrip.antt =====
-- What a writer puts at the cursor, the reader of the same width gets back from there.
use accelio.Prelude.{ℕ, ◌+◌, ◌≤◌, ◌<◌, ◌^◌, ◌≡◌, if◌then◌else◌, ltb, some, none, arith, length}
use accelio.Wire.{Buffer}
use accelio.Wire.Store.{get_bytes-put_bytes}
use accelio.Wire.Integers.{
  uint8_round_trip, uint16_round_trip, uint32_round_trip, uint64_round_trip,
}
use accelio.Mbuf.{Mbuf, done, failed, offset, push, pop}
use accelio.Mbuf.Io.{
  write_u8, write_u16, write_u32, write_u64, write_array, read_u8, read_u16, read_u32, read_u64,
  read_array,
}
use accelio.Mbuf.Safety.{IsValid}

-- Where the next `n` bytes stand in the memory.
offset_room :
    (m : Mbuf) (n : ℕ) → IsValid m → m.curr + n ≤ m.tail → offset m m.curr + n ≤ length m.mem
offset_room m n h r = omega arith

read-write_u8 :
    (m : Mbuf) (v : ℕ)
    → IsValid m
    → m.curr + 1 ≤ m.tlv_tail
    → let m' = (write_u8 (push m) v).1 in
      (read_u8 (pop m') ≡ (done, some v, m')) × (m'.curr ≡ m.curr + 1)
unfolding write_u8 read_u8 push pop
read-write_u8 m v h r =
    ground (arith, uint8_round_trip v (offset m m.curr) (offset m m.curr + 1) m.mem)

read-write_u16 :
    (m : Mbuf) (v : ℕ)
    → IsValid m
    → v < 2 ^ 16
    → m.curr + 2 ≤ m.tlv_tail
    → let m' = (write_u16 (push m) v).1 in
      (read_u16 (pop m') ≡ (done, some v, m')) × (m'.curr ≡ m.curr + 2)
unfolding write_u16 read_u16 push pop
read-write_u16 m v h hv r =
    ground (arith, uint16_round_trip v (offset m m.curr) (offset m m.curr + 2) m.mem)

read-write_u32 :
    (m : Mbuf) (v : ℕ)
    → IsValid m
    → v < 2 ^ 32
    → m.curr + 4 ≤ m.tlv_tail
    → let m' = (write_u32 (push m) v).1 in
      (read_u32 (pop m') ≡ (done, some v, m')) × (m'.curr ≡ m.curr + 4)
unfolding write_u32 read_u32 push pop
read-write_u32 m v h hv r =
    ground (arith, uint32_round_trip v (offset m m.curr) (offset m m.curr + 4) m.mem)

read-write_array :
    (m : Mbuf) (array : Buffer)
    → IsValid m
    → m.curr + length array ≤ m.tlv_tail
    → let m' = (write_array (push m) array).1 in
      (read_array (pop m') (length array) ≡ (done, some array, m'))
      × (m'.curr ≡ m.curr + length array)
unfolding write_array read_array push pop
read-write_array m array h r = ground (arith, get_bytes-put_bytes array (offset m m.curr) m.mem)

-- A byte, a number below 2^16, a number below 2^32 and an array of bytes that are written at the
-- marked cursor are read back from there, where the record reaches at least to their end; writer
-- and reader both leave the cursor behind the value.
pub read-write :
    (m : Mbuf) (a b c : ℕ) (array : Buffer)
    → IsValid m
    → b < 2 ^ 16
    → c < 2 ^ 32
    → m.curr + 4 ≤ m.tlv_tail
    → m.curr + length array ≤ m.tlv_tail
    → let m8 = (write_u8 (push m) a).1 in
      let m16 = (write_u16 (push m) b).1 in
      let m32 = (write_u32 (push m) c).1 in
      let mn = (write_array (push m) array).1 in
      ((read_u8 (pop m8) ≡ (done, some a, m8)) × (m8.curr ≡ m.curr + 1))
      × ((read_u16 (pop m16) ≡ (done, some b, m16)) × (m16.curr ≡ m.curr + 2))
      × ((read_u32 (pop m32) ≡ (done, some c, m32)) × (m32.curr ≡ m.curr + 4))
      × ((read_array (pop mn) (length array) ≡ (done, some array, mn))
          × (mn.curr ≡ m.curr + length array))
read-write m a b c array h hb hc r ra = (
  read-write_u8 m a h (omega arith),
  read-write_u16 m b h hb (omega arith),
  read-write_u32 m c h hc r,
  read-write_array m array h ra,
)

-- A number below 2^64 that is written at the marked cursor is read back only where the record goes
-- on behind it. Where it is the last of the record, the writer stores it, and the reader refuses
-- it and changes nothing.
pub read-write_u64 :
    (m : Mbuf) (v : ℕ)
    → IsValid m
    → v < 2 ^ 64
    → m.curr + 8 ≤ m.tlv_tail
    → let (s, m') = write_u64 (push m) v in
      (s ≡ done)
      × (read_u64 (pop m')
          ≡ (if ltb (m.curr + 8) m.tlv_tail then (done, some v, m') else (failed, none, pop m')))
unfolding write_u64 read_u64 push pop
read-write_u64 m v h hv r =
    ground (arith, uint64_round_trip v (offset m m.curr) (offset m m.curr + 8) m.mem)
