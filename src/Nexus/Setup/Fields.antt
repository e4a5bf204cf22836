-- ===== src/Nexus/Setup/Fields.antt =====
-- The fields of the setup messages, written and read back.
use accelio.Prelude.{ℕ, ◌+◌, ◌^◌, ◌≤◌, ◌<◌, ◌≡◌, ◌⊎◌, refl, arith, length}
use accelio.Wire.{Buffer, read_uint16, read_uint32, put_bytes}
use accelio.Wire.Store.{at-put_bytes-Outside, length-put_bytes}
use accelio.Wire.Integers.{
  bytes_16, bytes_32, write_uint16-put_bytes, write_uint32-put_bytes, read_put_16, read_put_32,
}
use accelio.Nexus.Setup.{SetupReq, SetupRsp, pack_req, pack_rsp, unpack_req, unpack_rsp}

-- A number is read as before when other bytes are put.
read_uint16-put_bytes :
    (xs : Buffer) (k i : ℕ) (b : Buffer)
    → (i + 2 ≤ k) ⊎ (k + length xs ≤ i)
    → read_uint16 i (put_bytes xs k b) ≡ read_uint16 i b
unfolding read_uint16
read_uint16-put_bytes xs k i b h =
    rw
      (
        at-put_bytes-Outside xs k i b (omega arith),
        at-put_bytes-Outside xs k (i + 1) b (omega arith),
      )
      refl

read_uint32-put_bytes :
    (xs : Buffer) (k i : ℕ) (b : Buffer)
    → (i + 4 ≤ k) ⊎ (k + length xs ≤ i)
    → read_uint32 i (put_bytes xs k b) ≡ read_uint32 i b
unfolding read_uint32
read_uint32-put_bytes xs k i b h =
    rw
      (
        at-put_bytes-Outside xs k i b (omega arith),
        at-put_bytes-Outside xs k (i + 1) b (omega arith),
        at-put_bytes-Outside xs k (i + 2) b (omega arith),
        at-put_bytes-Outside xs k (i + 3) b (omega arith),
      )
      refl

pub unpack-pack_req :
    (req : SetupReq) (k : ℕ) (b : Buffer)
    → req.version < 2 ^ 16
    → req.flags < 2 ^ 16
    → req.cid < 2 ^ 32
    → k + 8 ≤ length b
    → unpack_req k (pack_req req k b) ≡ req
unfolding unpack_req pack_req
unpack-pack_req req k b v f c h =
    let b1 = put_bytes (bytes_16 req.version) k b in
    let b2 = put_bytes (bytes_16 req.flags) (k + 2) b1 in
    let l1 = length-put_bytes (bytes_16 req.version) k b in
    let l2 = length-put_bytes (bytes_16 req.flags) (k + 2) b1 in
    rw
      (
        unpack_req,
        pack_req,
        write_uint16-put_bytes req.version k b,
        write_uint16-put_bytes req.flags (k + 2) b1,
        write_uint32-put_bytes req.cid (k + 4) b2,
        read_uint16-put_bytes (bytes_32 req.cid) (k + 4) k b2 (omega arith),
        read_uint16-put_bytes (bytes_32 req.cid) (k + 4) (k + 2) b2 (omega arith),
        read_uint16-put_bytes (bytes_16 req.flags) (k + 2) k b1 (omega arith),
        read_put_16 req.version k b v (omega arith),
        read_put_16 req.flags (k + 2) b1 f (omega (arith, l1)),
        read_put_32 req.cid (k + 4) b2 c (omega (arith, l1, l2)),
      )
      refl

pub length-pack_req : (req : SetupReq) (k : ℕ) (b : Buffer) → length (pack_req req k b) ≡ length b
unfolding pack_req
length-pack_req req k b =
    let b1 = put_bytes (bytes_16 req.version) k b in
    let b2 = put_bytes (bytes_16 req.flags) (k + 2) b1 in
    rw
      (
        pack_req,
        write_uint16-put_bytes req.version k b,
        write_uint16-put_bytes req.flags (k + 2) b1,
        write_uint32-put_bytes req.cid (k + 4) b2,
        length-put_bytes (bytes_32 req.cid) (k + 4) b2,
        length-put_bytes (bytes_16 req.flags) (k + 2) b1,
        length-put_bytes (bytes_16 req.version) k b,
      )
      refl

pub unpack-pack_rsp :
    (rsp : SetupRsp) (k : ℕ) (b : Buffer)
    → rsp.cid < 2 ^ 32
    → rsp.status < 2 ^ 32
    → rsp.version < 2 ^ 16
    → rsp.flags < 2 ^ 16
    → k + 12 ≤ length b
    → unpack_rsp k (pack_rsp rsp k b) ≡ rsp
unfolding unpack_rsp pack_rsp
unpack-pack_rsp rsp k b c s v f h =
    let b1 = put_bytes (bytes_32 rsp.cid) k b in
    let b2 = put_bytes (bytes_32 rsp.status) (k + 4) b1 in
    let b3 = put_bytes (bytes_16 rsp.version) (k + 8) b2 in
    let l1 = length-put_bytes (bytes_32 rsp.cid) k b in
    let l2 = length-put_bytes (bytes_32 rsp.status) (k + 4) b1 in
    let l3 = length-put_bytes (bytes_16 rsp.version) (k + 8) b2 in
    rw
      (
        unpack_rsp,
        pack_rsp,
        write_uint32-put_bytes rsp.cid k b,
        write_uint32-put_bytes rsp.status (k + 4) b1,
        write_uint16-put_bytes rsp.version (k + 8) b2,
        write_uint16-put_bytes rsp.flags (k + 10) b3,
        read_uint32-put_bytes (bytes_16 rsp.flags) (k + 10) k b3 (omega arith),
        read_uint32-put_bytes (bytes_16 rsp.version) (k + 8) k b2 (omega arith),
        read_uint32-put_bytes (bytes_32 rsp.status) (k + 4) k b1 (omega arith),
        read_uint32-put_bytes (bytes_16 rsp.flags) (k + 10) (k + 4) b3 (omega arith),
        read_uint32-put_bytes (bytes_16 rsp.version) (k + 8) (k + 4) b2 (omega arith),
        read_uint16-put_bytes (bytes_16 rsp.flags) (k + 10) (k + 8) b3 (omega arith),
        read_put_32 rsp.cid k b c (omega arith),
        read_put_32 rsp.status (k + 4) b1 s (omega (arith, l1)),
        read_put_16 rsp.version (k + 8) b2 v (omega (arith, l1, l2)),
        read_put_16 rsp.flags (k + 10) b3 f (omega (arith, l1, l2, l3)),
      )
      refl

pub length-pack_rsp : (rsp : SetupRsp) (k : ℕ) (b : Buffer) → length (pack_rsp rsp k b) ≡ length b
unfolding pack_rsp
length-pack_rsp rsp k b =
    let b1 = put_bytes (bytes_32 rsp.cid) k b in
    let b2 = put_bytes (bytes_32 rsp.status) (k + 4) b1 in
    let b3 = put_bytes (bytes_16 rsp.version) (k + 8) b2 in
    rw
      (
        pack_rsp,
        write_uint32-put_bytes rsp.cid k b,
        write_uint32-put_bytes rsp.status (k + 4) b1,
        write_uint16-put_bytes rsp.version (k + 8) b2,
        write_uint16-put_bytes rsp.flags (k + 10) b3,
        length-put_bytes (bytes_16 rsp.flags) (k + 10) b3,
        length-put_bytes (bytes_16 rsp.version) (k + 8) b2,
        length-put_bytes (bytes_32 rsp.status) (k + 4) b1,
        length-put_bytes (bytes_32 rsp.cid) k b,
      )
      refl
