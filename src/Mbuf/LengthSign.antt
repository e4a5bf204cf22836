-- ===== src/Mbuf/LengthSign.antt =====
-- What the bound test of xio_mbuf_read_first_tlv makes of the length that a message declares.
use accelio.Prelude.{ℕ, ◌+◌, ◌-◌, ◌≤◌, ◌<◌, ◌^◌, ◌%◌, ◌≡◌, ◌&&◌, arith, if◌then◌else◌, leb, ◌==◌}
use accelio.Wire.{read_uint32, read_uint64}
use accelio.Mbuf.{Mbuf, done, failed, offset}
use accelio.Mbuf.Tlv.{magic, read_first_tlv}
use accelio.Mbuf.Io.{read_u64}
use accelio.Mbuf.Safety.{IsValid}

-- The fields at the head of the buffer.
abbrev pub magic_field : Mbuf → ℕ
magic_field m = (read_uint32 (offset m m.head) m.mem).0

abbrev pub len_field : Mbuf → ℕ
len_field m = (read_uint64 (offset m m.head + 8) m.mem).0

-- Where the declared length is below 2^31 - 16, a valid buffer's first record is accepted exactly
-- if the magic fits and the record ends inside the buffer.
pub read_first_tlv_accepts :
    (m : Mbuf)
    → IsValid m
    → len_field m + 16 < 2 ^ 31
    → (read_first_tlv m).0 ≡ (
        if (magic_field m == magic) && leb (m.head + 16 + len_field m) m.tail then done else failed)
unfolding read_first_tlv
read_first_tlv_accepts m v h = ground arith

-- A declared length whose sum with the header, as a 32-bit `int`, is negative and not -1 passes the
-- test, in every valid buffer at an address from 2^32 on with the right magic: the record's end
-- comes before the buffer, and from then on `xio_mbuf_read_u64` accepts every cursor from the
-- buffer's end on (below 2^63).
pub negative_length_accepted :
    (m : Mbuf) (p : ℕ)
    → IsValid m
    → 2 ^ 32 ≤ m.head
    → magic_field m ≡ magic
    → len_field m < 2 ^ 64 - 16
    → 2 ^ 31 ≤ (len_field m + 16) % 2 ^ 32
    → (len_field m + 16) % 2 ^ 32 < 2 ^ 32 - 1
    → m.tail ≤ p
    → p < 2 ^ 63
    → let (s, m') = read_first_tlv m in
      (s ≡ done) × (m'.tlv_tail < m.head) × ((read_u64 (record m' { curr = p })).0 ≡ done)
unfolding read_first_tlv read_u64
negative_length_accepted m p v hb hm hl h1 h2 hp hq = ground arith
