-- ===== src/Nexus/Setup/RoundTrip.antt =====
-- The setup messages, written and read back.
use accelio.Prelude.{ℕ, ◌+◌, ◌-◌, ◌^◌, ◌≤◌, ◌<◌, ◌≡◌, refl, ap, ◌∙◌, some, arith, length}
use accelio.Mbuf.{Mbuf, Status, done, reset, set_val_start, inc, sum_to_ptr, ptr_diff, tlv_size}
use accelio.Mbuf.Tlv.{tlv_start}
use accelio.Nexus.Setup.{
  SetupReq, SetupRsp, pack_req, pack_rsp, unpack_req, unpack_rsp, write_setup_req, read_setup_req,
  write_setup_rsp, read_setup_rsp, put_req, get_req, put_rsp, get_rsp,
}
use accelio.Nexus.Setup.Fields.{unpack-pack_req, unpack-pack_rsp, length-pack_req, length-pack_rsp}

-- A message buffer with room for a header and `n` bytes, that lies in the memory.
pub record Room (m : Mbuf) (n : ℕ) : Type 0 where
  pub base_le : m.base ≤ m.head
  pub fits : m.head + 16 + n ≤ m.tail
  pub tail_le : m.tail ≤ m.base + length m.mem
  pub low : m.tail < 2 ^ 63
  pub some_room : 0 < n

abbrev started : Mbuf → Mbuf
started m = record m {
  tlv_head = m.head;
  tlv_tail = m.tail;
  tlv_val = m.head + 16;
  curr = m.head + 16;
}

tlv_start-Room : (m : Mbuf) (n : ℕ) → Room m n → m.curr ≡ m.head → tlv_start m ≡ (done, started m)
unfolding tlv_start
tlv_start-Room m n r e = ground (arith, r.base_le, r.fits, r.low, r.some_room)

-- The sums and the difference of addresses do not wrap around.
in_range :
    (m : Mbuf) (n : ℕ)
    → Room m n
    → (sum_to_ptr m.head tlv_size ≡ m.head + 16)
      × (sum_to_ptr (m.head + 16) n ≡ m.head + 16 + n)
      × (ptr_diff (m.head + 16) m.base ≡ m.head + 16 - m.base)
in_range m n r = (
  omega (arith, r.fits, r.low),
  omega (arith, r.fits, r.low),
  omega (arith, r.base_le, r.fits, r.low),
)

at_start : (m : Mbuf) (n : ℕ) → Room m n → Room (record m { curr = m.head }) n
at_start m n r = record {
  base_le = r.base_le;
  fits = r.fits;
  tail_le = r.tail_le;
  low = r.low;
  some_room = r.some_room;
}

-- A request at the start of a buffer.
put_req-Room :
    (m : Mbuf) (req : SetupReq)
    → Room m 8
    → put_req req (done, started m) ≡ (
      done,
      record (started m) {
        mem = pack_req req (m.head + 16 - m.base) m.mem;
        curr = m.head + 16 + 8;
      },
    )
unfolding put_req set_val_start inc
put_req-Room m req r = let (a, b, c) = in_range m 8 r in ground (arith, a, b, c)

get_req-Room :
    (m : Mbuf)
    → Room m 8
    → (get_req (done, started m)).0 ≡ some (unpack_req (m.head + 16 - m.base) m.mem)
unfolding get_req
get_req-Room m r = let (a, b, c) = in_range m 8 r in ground (arith, c)

-- A setup request that is written to a buffer with room for it is read from that buffer as it was.
pub read-write_nexus_req :
    (m : Mbuf) (req : SetupReq)
    → Room m 8
    → req.version < 2 ^ 16
    → req.flags < 2 ^ 16
    → req.cid < 2 ^ 32
    → let (st, m1) = write_setup_req m req in (st ≡ done) × ((read_setup_req m1).0 ≡ some req)
unfolding write_setup_req read_setup_req reset
read-write_nexus_req m req r v f c =
    let k = m.head + 16 - m.base in
    let m1 = record (started m) { mem = pack_req req k m.mem; curr = m.head } in
    let r1 : Room m1 8 = record {
      base_le = r.base_le;
      fits = r.fits;
      tail_le = omega (arith, r.tail_le, length-pack_req req k m.mem);
      low = r.low;
      some_room = r.some_room;
    } in
    let w : write_setup_req m req ≡ (done, record m1 { curr = m.head + 16 + 8 }) =
      ap (put_req req) (tlv_start-Room (record m { curr = m.head }) 8 (at_start m 8 r) refl)
      ∙ put_req-Room m req r in
    let e = unpack-pack_req req k m.mem v f c (omega (arith, r.base_le, r.fits, r.tail_le)) in
    (
      ap (λ (p : Status × Mbuf). p.0) w,
      ap (λ (p : Status × Mbuf). (read_setup_req p.1).0) w
          ∙ ap (λ p. (get_req p).0) (tlv_start-Room m1 8 r1 refl)
          ∙ get_req-Room m1 r1
          ∙ ap some e,
    )

put_rsp-Room :
    (m : Mbuf) (rsp : SetupRsp)
    → Room m 12
    → put_rsp rsp (done, started m) ≡ (
      done,
      record (started m) {
        mem = pack_rsp rsp (m.head + 16 - m.base) m.mem;
        curr = m.head + 16 + 12;
      },
    )
unfolding put_rsp inc
put_rsp-Room m rsp r = let (a, b, c) = in_range m 12 r in ground (arith, b, c)

get_rsp-Room :
    (m : Mbuf)
    → Room m 12
    → (get_rsp (done, started m)).0 ≡ some (unpack_rsp (m.head + 16 - m.base) m.mem)
unfolding get_rsp
get_rsp-Room m r = let (a, b, c) = in_range m 12 r in ground (arith, c)

-- A setup response that is written at the start of a buffer with room for it is read from that
-- buffer, from its start, as it was.
pub read-write_nexus_rsp :
    (m : Mbuf) (rsp : SetupRsp)
    → Room m 12
    → rsp.cid < 2 ^ 32
    → rsp.status < 2 ^ 32
    → rsp.version < 2 ^ 16
    → rsp.flags < 2 ^ 16
    → let (st, m1) = write_setup_rsp (reset m) rsp in
      (st ≡ done) × ((read_setup_rsp (reset m1)).0 ≡ some rsp)
unfolding write_setup_rsp read_setup_rsp reset
read-write_nexus_rsp m rsp r c s v f =
    let k = m.head + 16 - m.base in
    let m0 = record m { curr = m.head } in
    let m1 = record (started m) { mem = pack_rsp rsp k m.mem; curr = m.head } in
    let r1 : Room m1 12 = record {
      base_le = r.base_le;
      fits = r.fits;
      tail_le = omega (arith, r.tail_le, length-pack_rsp rsp k m.mem);
      low = r.low;
      some_room = r.some_room;
    } in
    let w : write_setup_rsp m0 rsp ≡ (done, record m1 { curr = m.head + 16 + 12 }) =
      ap (put_rsp rsp) (tlv_start-Room m0 12 (at_start m 12 r) refl) ∙ put_rsp-Room m rsp r in
    let e = unpack-pack_rsp rsp k m.mem c s v f (omega (arith, r.base_le, r.fits, r.tail_le)) in
    (
      ap (λ (p : Status × Mbuf). p.0) w,
      ap (λ (p : Status × Mbuf). (read_setup_rsp (record p.1 { curr = p.1.head })).0) w
          ∙ ap (λ p. (get_rsp p).0) (tlv_start-Room m1 12 r1 refl)
          ∙ get_rsp-Room m1 r1
          ∙ ap some e,
    )
