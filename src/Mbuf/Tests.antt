-- ===== src/Mbuf/Tests.antt =====
-- Runs of the message buffer at fixed inputs.
use accelio.Prelude.{ℕ, ◌+◌, ◌≡◌, refl, arith, [], ◌∷◌, some, replicate, set, zero, suc}
use accelio.Mbuf.{Mbuf, done, push, pop}
use accelio.Mbuf.Tlv.{mbuf_write_tlv, read_first_tlv}
use accelio.Mbuf.Io.{
  write_u8, write_u16, write_u32, write_u64, write_array, read_u8, read_u16, read_u32, read_u64,
  read_array,
}
use accelio.Wire.{Buffer}
use accelio.Mbuf.Safety.{IsValid, writers-IsValid}
use accelio.Mbuf.Reading.{InRecord, SameRecord, SameRead, with_mem, readers_see_record}
use accelio.Mbuf.RoundTrip.{read-write}
use accelio.Mbuf.Tlv.RoundTrip.{read_first_tlv-write_tlv}

-- 28 bytes at the address 2^32, and a cursor behind a header.
abbrev where_at : ℕ
where_at = 0x1_0000_0000

abbrev blank : Mbuf
blank = record {
  mem = 0x58 ∷ 0x49 ∷ 0x4F ∷ 0x50 ∷ 0 ∷ 0 ∷ 0 ∷ 9 ∷ 0 ∷ 0 ∷ 0 ∷ 0 ∷ 0 ∷ 0 ∷ 0 ∷ 8 ∷ replicate 12 0;
  base = where_at;
  curr = where_at;
  head = where_at;
  tail = where_at + 28;
  buflen = 28;
  datalen = 0;
  tlv_head = where_at;
  tlv_tail = where_at + 28;
  tlv_len = 0;
  tlv_type = 0;
  tlv_val = 0;
  marker = 0;
}

abbrev behind_header : Mbuf
behind_header = record blank { curr = where_at + 16; tlv_tail = where_at + 24 }

blank-IsValid : IsValid blank
blank-IsValid = record {
  base_le = omega arith;
  head_le = omega arith;
  curr_le = omega arith;
  tail_le = omega arith;
  low = omega arith;
  tlv_le = omega arith;
}

behind_header-IsValid : IsValid behind_header
behind_header-IsValid = record {
  base_le = omega arith;
  head_le = omega arith;
  curr_le = omega arith;
  tail_le = omega arith;
  low = omega arith;
  tlv_le = omega arith;
}

writers-IsValid_example :
    IsValid (write_u8 behind_header 300).1
    × IsValid (write_u16 behind_header 300).1
    × IsValid (write_u32 behind_header 300).1
    × IsValid (write_u64 behind_header 300).1
    × IsValid (write_array behind_header (1 ∷ 2 ∷ [])).1
writers-IsValid_example =
    writers-IsValid behind_header 300 (1 ∷ 2 ∷ []) behind_header-IsValid (omega arith)

-- The same bytes but for the first one, which is of the header.
abbrev other_header : Buffer
other_header = set behind_header.mem 0 9

same_record : SameRecord behind_header other_header
same_record zero a b = absurd (omega arith)
same_record (suc k) a b = refl

readers_see_record_example :
    (InRecord (read_u8 behind_header).2
      × SameRead (read_u8 behind_header) (read_u8 (with_mem behind_header other_header)))
    × (InRecord (read_u16 behind_header).2
        × SameRead (read_u16 behind_header) (read_u16 (with_mem behind_header other_header)))
    × (InRecord (read_u32 behind_header).2
        × SameRead (read_u32 behind_header) (read_u32 (with_mem behind_header other_header)))
    × (InRecord (read_u64 behind_header).2
        × SameRead (read_u64 behind_header) (read_u64 (with_mem behind_header other_header)))
    × (InRecord (read_array behind_header 3).2
        × SameRead
            (read_array behind_header 3)
            (read_array (with_mem behind_header other_header) 3))
readers_see_record_example =
    readers_see_record behind_header other_header 3 (behind_header-IsValid, omega arith) same_record
      (omega arith)

read_first_tlv-write_tlv_example :
    let (s, m') = mbuf_write_tlv blank 5 12 in
    (s ≡ done)
    × (read_first_tlv m' ≡ (
      done,
      record m' {
        tlv_head = where_at;
        tlv_type = 5;
        tlv_len = 12;
        tlv_val = where_at + 16;
        tlv_tail = where_at + 28;
        curr = where_at + 16;
      },
    ))
read_first_tlv-write_tlv_example =
    read_first_tlv-write_tlv blank 5 12 blank-IsValid refl (omega arith) (omega arith) (omega arith)

read-write_example :
    let m8 = (write_u8 (push behind_header) 7).1 in
    let m16 = (write_u16 (push behind_header) 0xBEEF).1 in
    let m32 = (write_u32 (push behind_header) 0x5849_4F50).1 in
    let mn = (write_array (push behind_header) (1 ∷ 2 ∷ 3 ∷ [])).1 in
    ((read_u8 (pop m8) ≡ (done, some 7, m8)) × (m8.curr ≡ where_at + 17))
    × ((read_u16 (pop m16) ≡ (done, some 0xBEEF, m16)) × (m16.curr ≡ where_at + 18))
    × ((read_u32 (pop m32) ≡ (done, some 0x5849_4F50, m32)) × (m32.curr ≡ where_at + 20))
    × ((read_array (pop mn) 3 ≡ (done, some (1 ∷ 2 ∷ 3 ∷ []), mn)) × (mn.curr ≡ where_at + 19))
read-write_example =
    read-write behind_header 7 0xBEEF 0x5849_4F50 (1 ∷ 2 ∷ 3 ∷ []) behind_header-IsValid
      (omega arith) (omega arith) (omega arith) (omega arith)

-- The length field says 2^31, so that the sum with the header is negative.
abbrev negative : Mbuf
negative = record blank {
  mem =
      0x58 ∷ 0x49 ∷ 0x4F ∷ 0x50 ∷ 0 ∷ 0 ∷ 0 ∷ 9 ∷ 0 ∷ 0 ∷ 0 ∷ 0 ∷ 0x80 ∷ 0 ∷ 0 ∷ 0 ∷ replicate 12 0;
}

negative-IsValid : IsValid negative
negative-IsValid = record {
  base_le = omega arith;
  head_le = omega arith;
  curr_le = omega arith;
  tail_le = omega arith;
  low = omega arith;
  tlv_le = omega arith;
}
