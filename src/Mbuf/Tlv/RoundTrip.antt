-- ===== src/Mbuf/Tlv/RoundTrip.antt =====
-- xio_write_tlv and xio_read_tlv, and the mbuf operations over them.
use native.Mathlib.Nat.{add_assoc}
use accelio.Prelude.{ℕ, ◌+◌, ◌≤◌, ◌<◌, ◌^◌, ◌%◌, ◌≡◌, refl, ◌++◌, arith, length}
use accelio.Wire.{Buffer, at, write_uint32, write_uint64, read_uint32, read_uint64, put_bytes}
use accelio.Wire.Store.{at-put_bytes}
use accelio.Wire.Integers.{bytes_32, bytes_64, read_uint32-at, read_uint64-at}
use accelio.Mbuf.{Mbuf, done, sum_to_ptr, offset, tlv_size}
use accelio.Mbuf.Tlv.{magic, write_tlv, Header, read_tlv, mbuf_write_tlv, read_first_tlv}
use accelio.Mbuf.Safety.{IsValid}

-- The sixteen bytes of a header.
abbrev header : ℕ → ℕ → Buffer
header type len = bytes_32 magic ++ bytes_32 type ++ bytes_64 len

write_tlv-put_bytes :
    (type len k : ℕ) (mem : Buffer)
    → write_tlv type len k mem ≡ ((tlv_size + len) % 2 ^ 64, put_bytes (header type len) k mem)
unfolding write_tlv write_uint32 write_uint64 put_bytes
write_tlv-put_bytes type len k mem = simp add_assoc

size_of_tlv :
    (type len k : ℕ) (mem : Buffer) → (write_tlv type len k mem).0 ≡ (tlv_size + len) % 2 ^ 64
unfolding write_tlv
size_of_tlv type len k mem = refl

-- What was written is read back: the magic fits, and the fields are those given.
read_tlv-write_tlv :
    (old : Header) (type len buffer k : ℕ) (mem : Buffer)
    → type < 2 ^ 32
    → len < 2 ^ 64
    → k + 16 ≤ length mem
    → read_tlv old buffer k (write_tlv type len k mem).1 ≡ record {
      size = (tlv_size + len) % 2 ^ 64;
      type = type;
      len = len;
      value = sum_to_ptr buffer tlv_size;
    }
unfolding read_tlv
read_tlv-write_tlv old type len buffer k mem ht hl hk =
    rw (write_tlv-put_bytes type len k mem) (rw (field_magic, field_type, field_len))
  where
    stored :
        (j p : ℕ)
        → j < 16
        → p ≡ k + j
        → at (put_bytes (header type len) k mem) p ≡ at (header type len) j
    stored j p = at-put_bytes (header type len) k j p mem hk

    field_magic : read_uint32 k (put_bytes (header type len) k mem) ≡ (magic, 4)
    field_magic =
        read_uint32-at magic k _ (omega arith) (stored 0 k (omega arith) (omega arith))
          (stored 1 (k + 1) (omega arith) refl) (stored 2 (k + 2) (omega arith) refl)
          (stored 3 (k + 3) (omega arith) refl)

    field_type : read_uint32 (k + 4) (put_bytes (header type len) k mem) ≡ (type, 4)
    field_type =
        read_uint32-at type (k + 4) _ ht (stored 4 (k + 4) (omega arith) refl)
          (stored 5 (k + 4 + 1) (omega arith) (omega arith))
          (stored 6 (k + 4 + 2) (omega arith) (omega arith))
          (stored 7 (k + 4 + 3) (omega arith) (omega arith))

    field_len : read_uint64 (k + 8) (put_bytes (header type len) k mem) ≡ (len, 8)
    field_len =
        read_uint64-at len (k + 8) _ hl (stored 8 (k + 8) (omega arith) refl)
          (stored 9 (k + 8 + 1) (omega arith) (omega arith))
          (stored 10 (k + 8 + 2) (omega arith) (omega arith))
          (stored 11 (k + 8 + 3) (omega arith) (omega arith))
          (stored 12 (k + 8 + 4) (omega arith) (omega arith))
          (stored 13 (k + 8 + 5) (omega arith) (omega arith))
          (stored 14 (k + 8 + 6) (omega arith) (omega arith))
          (stored 15 (k + 8 + 7) (omega arith) (omega arith))

-- A record of a type below 2^32 and a length below 2^16 that `xio_mbuf_write_tlv` puts at the head
-- of a valid buffer, and that ends inside it, is accepted by `xio_mbuf_read_first_tlv`, which gives
-- back type and length, and bounds the readers by the record's end.
pub read_first_tlv-write_tlv :
    (m : Mbuf) (type len : ℕ)
    → IsValid m
    → m.tlv_head ≡ m.head
    → type < 2 ^ 32
    → len < 2 ^ 16
    → m.head + 16 + len ≤ m.tail
    → let (s, m') = mbuf_write_tlv m type len in
      (s ≡ done)
      × (read_first_tlv m' ≡ (
        done,
        record m' {
          tlv_head = m.head;
          tlv_type = type;
          tlv_len = len;
          tlv_val = m.head + 16;
          tlv_tail = m.head + 16 + len;
          curr = m.head + 16;
        },
      ))
unfolding mbuf_write_tlv read_first_tlv
read_first_tlv-write_tlv m type len v e ht hl r = ground (
  arith,
  read_tlv-write_tlv (record { size = 0; type = type; len = len; value = m.tlv_val }) type len
      m.head (offset m m.head) m.mem,
  size_of_tlv type len (offset m m.tlv_head) m.mem,
)
