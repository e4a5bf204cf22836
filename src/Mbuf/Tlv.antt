-- ===== src/Mbuf/Tlv.antt =====
-- Headers of type, length and value.
pub mod RoundTrip
use accelio.Prelude.{ℕ, ◌+◌, ◌-◌, ◌%◌, ◌^◌, Bool, ◌||◌, if◌then◌else◌, leb, ltb, ◌==◌}
use accelio.Wire.{Buffer, write_uint32, write_uint64, read_uint32, read_uint64}
use accelio.Mbuf.{
  Mbuf, Status, done, failed, sum_to_ptr, ptr_diff, to_int, minus_one, offset, tlv_size,
}

-- XIO_MAGIC, "XIOP"
abbrev pub magic : ℕ
magic = 0x5849_4F50

-- The three stores through `buffer`, which stands at `buffer` in the memory, and the returned size.
unfoldable pub write_tlv : ℕ → ℕ → ℕ → Buffer → ℕ × Buffer
write_tlv type len buffer mem =
    let (_, mem1) = write_uint32 magic buffer mem in
    let (_, mem2) = write_uint32 type (buffer + 4) mem1 in
    let (_, mem3) = write_uint64 len (buffer + 8) mem2 in ((tlv_size + len) % 2 ^ 64, mem3)

-- What `xio_read_tlv` returns and stores through its pointers. On a wrong magic it returns
-- `(size_t)-1` and stores nothing.
pub record Header : Type 0 where
  pub size : ℕ
  pub type : ℕ
  pub len : ℕ
  pub value : ℕ

-- `buffer` is the pointer, `k` the place in the memory that it points to.
unfoldable pub read_tlv : Header → ℕ → ℕ → Buffer → Header
read_tlv old buffer k mem =
    let len = (read_uint64 (k + 8) mem).0 in
    if (read_uint32 k mem).0 == magic
    then record {
      size = (tlv_size + len) % 2 ^ 64;
      type = (read_uint32 (k + 4) mem).0;
      len = len;
      value = sum_to_ptr buffer tlv_size;
    }
    else record old { size = minus_one }

-- xio_mbuf_tlv_start
unfoldable pub tlv_start : Mbuf → Status × Mbuf
tlv_start m = if leb (ptr_diff m.tail m.curr) tlv_size then (failed, m) else (
  done,
  record m {
    tlv_head = m.curr;
    tlv_tail = m.tail;
    tlv_val = sum_to_ptr m.head tlv_size;
    curr = sum_to_ptr m.head tlv_size;
  },
)

-- The body that xio_mbuf_read_first_tlv and xio_mbuf_read_next_tlv share once `tlv.head` is set.
read_tlv_at : Mbuf → Status × Mbuf
unfolding read_tlv
read_tlv_at m =
    let h =
      read_tlv (record { size = 0; type = m.tlv_type; len = m.tlv_len; value = m.tlv_val })
        m.tlv_head (offset m m.tlv_head) m.mem in
    let len = to_int h.size in
    let m' = record m { tlv_type = h.type; tlv_len = h.len; tlv_val = h.value } in
    if (len == minus_one) || ltb m.tail (sum_to_ptr m.tlv_head len)
    then (failed, m')
    else (done, record m' { tlv_tail = sum_to_ptr m.tlv_head len; curr = h.value })

-- xio_mbuf_read_first_tlv
unfoldable pub read_first_tlv : Mbuf → Status × Mbuf
unfolding read_tlv_at
read_first_tlv m = read_tlv_at (record m { tlv_head = m.head })

-- xio_mbuf_read_next_tlv
unfoldable pub read_next_tlv : Mbuf → Status × Mbuf
unfolding read_tlv_at
read_next_tlv m = read_tlv_at (record m { tlv_head = m.tlv_tail })

-- xio_mbuf_write_tlv; `len` is a `uint16_t`. The header is stored before the bound is tested.
unfoldable pub mbuf_write_tlv : Mbuf → ℕ → ℕ → Status × Mbuf
mbuf_write_tlv m type len =
    let (size, mem) = write_tlv type len (offset m m.tlv_head) m.mem in
    let retval = to_int size in
    let m' = record m { tlv_type = type; tlv_len = len; mem = mem } in
    if (retval == minus_one) || ltb m.tail (sum_to_ptr m.tlv_head retval) then (failed, m') else (
      done,
      record m' {
        tlv_tail = sum_to_ptr m.tlv_head retval;
        datalen = ptr_diff m.curr m.tlv_head % 2 ^ 32;
      },
    )

-- xio_read_tlv_type: `(uint32_t)-1` on a wrong magic
unfoldable pub read_tlv_type : Mbuf → ℕ
read_tlv_type m =
    if (read_uint32 (offset m m.tlv_head) m.mem).0 == magic
    then (read_uint32 (offset m m.tlv_head + 4) m.mem).0
    else 2 ^ 32 - 1

-- xio_mbuf_read_type
unfoldable pub read_type : Mbuf → ℕ
read_type m = (read_uint32 (offset m m.head + 4) m.mem).0
