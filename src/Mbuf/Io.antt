-- ===== src/Mbuf/Io.antt =====
-- Integers and arrays at the cursor. A writer is held by the end of the buffer, a reader by the end
-- of the record that was read last. A reader hands over the value that it stores through `val`.
use accelio.Prelude.{ℕ, Option, none, some, if◌then◌else◌, leb, ltb, length}
use accelio.Wire.{
  Buffer, write_uint8, read_uint8, write_uint16, read_uint16, write_uint32, read_uint32,
  write_uint64, read_uint64, put_bytes, get_bytes,
}
use accelio.Mbuf.{Mbuf, Status, done, failed, sum_to_ptr, ptr_diff, offset}

unfoldable pub write_u8 : Mbuf → ℕ → Status × Mbuf
write_u8 m val =
    if leb (sum_to_ptr m.curr 1) m.tail
    then (let (n, mem) = write_uint8 val (offset m m.curr) m.mem in
        (done, record m { mem = mem; curr = sum_to_ptr m.curr n }))
    else (failed, m)

unfoldable pub read_u8 : Mbuf → Status × Option ℕ × Mbuf
read_u8 m =
    if leb (sum_to_ptr m.curr 1) m.tlv_tail
    then (let (val, n) = read_uint8 (offset m m.curr) m.mem in
        (done, some val, record m { curr = sum_to_ptr m.curr n }))
    else (failed, none, m)

unfoldable pub write_u16 : Mbuf → ℕ → Status × Mbuf
write_u16 m val =
    if leb (sum_to_ptr m.curr 2) m.tail
    then (let (n, mem) = write_uint16 val (offset m m.curr) m.mem in
        (done, record m { mem = mem; curr = sum_to_ptr m.curr n }))
    else (failed, m)

unfoldable pub read_u16 : Mbuf → Status × Option ℕ × Mbuf
read_u16 m =
    if leb (sum_to_ptr m.curr 2) m.tlv_tail
    then (let (val, n) = read_uint16 (offset m m.curr) m.mem in
        (done, some val, record m { curr = sum_to_ptr m.curr n }))
    else (failed, none, m)

unfoldable pub write_u32 : Mbuf → ℕ → Status × Mbuf
write_u32 m val =
    if leb (sum_to_ptr m.curr 4) m.tail
    then (let (n, mem) = write_uint32 val (offset m m.curr) m.mem in
        (done, record m { mem = mem; curr = sum_to_ptr m.curr n }))
    else (failed, m)

unfoldable pub read_u32 : Mbuf → Status × Option ℕ × Mbuf
read_u32 m =
    if leb (sum_to_ptr m.curr 4) m.tlv_tail
    then (let (val, n) = read_uint32 (offset m m.curr) m.mem in
        (done, some val, record m { curr = sum_to_ptr m.curr n }))
    else (failed, none, m)

unfoldable pub write_u64 : Mbuf → ℕ → Status × Mbuf
write_u64 m val =
    if leb (sum_to_ptr m.curr 8) m.tail
    then (let (n, mem) = write_uint64 val (offset m m.curr) m.mem in
        (done, record m { mem = mem; curr = sum_to_ptr m.curr n }))
    else (failed, m)

-- The test is not that of the other readers.
unfoldable pub read_u64 : Mbuf → Status × Option ℕ × Mbuf
read_u64 m =
    if ltb 8 (ptr_diff m.tlv_tail m.curr)
    then (let (val, n) = read_uint64 (offset m m.curr) m.mem in
        (done, some val, record m { curr = sum_to_ptr m.curr n }))
    else (failed, none, m)

-- The bytes of `array` are those that the caller hands over with `len`.
unfoldable pub write_array : Mbuf → Buffer → Status × Mbuf
write_array m array =
    if leb (sum_to_ptr m.curr (length array)) m.tail
    then (
      done,
      record m {
        mem = put_bytes array (offset m m.curr) m.mem;
        curr = sum_to_ptr m.curr (length array);
      },
    )
    else (failed, m)

unfoldable pub read_array : Mbuf → ℕ → Status × Option Buffer × Mbuf
read_array m len =
    if leb (sum_to_ptr m.curr len) m.tlv_tail
    then (
      done,
      some (get_bytes len (offset m m.curr) m.mem),
      record m { curr = sum_to_ptr m.curr len },
    )
    else (failed, none, m)
