-- ===== src/Mbuf/Cursor.antt =====
-- The state of a cursor, and pointer arithmetic.
use accelio.Prelude.{ℕ, ◌+◌, ◌-◌, ◌%◌, ◌^◌, if◌then◌else◌, ltb, leb}
use accelio.Wire.{Buffer}

-- The return value of an operation: 0 or -1.
pub data Status : Type 0 where
  done failed : Status

-- `struct xio_mbuf`, its members `buf.*` and `tlv.*` flat, with the bytes of the memory from the
-- address `base` on.
pub record Mbuf : Type 0 where
  pub mem : Buffer
  pub base : ℕ
  pub curr : ℕ
  pub head : ℕ
  pub tail : ℕ
  pub buflen : ℕ
  pub datalen : ℕ
  pub tlv_head : ℕ
  pub tlv_tail : ℕ
  pub tlv_len : ℕ
  pub tlv_type : ℕ
  pub tlv_val : ℕ
  pub marker : ℕ

-- `sum_to_ptr(p, n)`
abbrev pub sum_to_ptr : ℕ → ℕ → ℕ
sum_to_ptr p n = (p + n) % 2 ^ 64

-- `(uint64_t)((char *)p - (char *)q)`
abbrev pub ptr_diff : ℕ → ℕ → ℕ
ptr_diff p q = (p + 2 ^ 64 - q) % 2 ^ 64

-- `int len = x;` for a `size_t x`, as the 64-bit number that `len` is when it is added to a pointer.
abbrev pub to_int : ℕ → ℕ
to_int x = let low = x % 2 ^ 32 in if ltb low (2 ^ 31) then low else low + 2 ^ 64 - 2 ^ 32

abbrev pub minus_one : ℕ
minus_one = 2 ^ 64 - 1

-- Where in `mem` the byte at the address `p` stands.
abbrev pub offset : Mbuf → ℕ → ℕ
offset m p = ptr_diff p m.base

-- sizeof(struct xio_tlv)
abbrev pub tlv_size : ℕ
tlv_size = 16

unfoldable pub init : Buffer → ℕ → ℕ → ℕ → ℕ → Mbuf
init mem base buf buflen datalen = record {
  mem = mem;
  base = base;
  curr = buf;
  head = buf;
  tail = sum_to_ptr buf buflen;
  buflen = buflen;
  datalen = datalen;
  tlv_head = 0;
  tlv_tail = 0;
  tlv_len = 0;
  tlv_type = 0;
  tlv_val = 0;
  marker = 0;
}

-- xio_mbuf_reset
unfoldable pub reset : Mbuf → Mbuf
reset m = record m { curr = m.head }

-- xio_mbuf_set_val_start
unfoldable pub set_val_start : Mbuf → Mbuf
set_val_start m = record m { curr = sum_to_ptr m.tlv_head tlv_size }

-- xio_mbuf_inc
unfoldable pub inc : Mbuf → ℕ → Mbuf
inc m len = record m { curr = sum_to_ptr m.curr len }

-- xio_mbuf_push and xio_mbuf_pop
unfoldable pub push : Mbuf → Mbuf
push m = record m { marker = m.curr }

unfoldable pub pop : Mbuf → Mbuf
pop m = record m { curr = m.marker }

-- xio_mbuf_set_data_length
unfoldable pub set_data_length : Mbuf → ℕ → Status × Mbuf
set_data_length m datalen =
    if leb datalen m.buflen then (done, record m { datalen = datalen % 2 ^ 32 }) else (failed, m)
