-- ===== src/Nexus/Setup.antt =====
-- The setup messages of a nexus: their fields, and what a nexus does with them.
pub mod Fields
pub mod RoundTrip
pub mod Response
use Prim.Native.Nat.{bit_and}
use accelio.Prelude.{
  ℕ, zero, suc, ◌+◌, ◌-◌, Bool, true, false, not, Option, none, some, List, [], ◌∷◌, if◌then◌else◌,
  ◌==◌,
}
use accelio.Wire.{Buffer, write_uint16, write_uint32, read_uint16, read_uint32}
use accelio.Mbuf.{Mbuf, Status, done, failed, reset, set_val_start, inc, offset}
use accelio.Mbuf.Tlv.{tlv_start}
use accelio.Pools.Tasks.{Pool, Task, put}
use accelio.Nexus.{Nexus, State, Event, Answers, is, notify, state_set, cancel_dwork}
use accelio.Nexus.Queue.{put_task, put_sender}
use accelio.Nexus.Reconnect.{prep_new_transport}

-- XIO_VERSION, XIO_CID and XIO_RECONNECT
abbrev pub xio_version : ℕ
xio_version = 0x0100

abbrev pub xio_cid : ℕ
xio_cid = 1

-- struct xio_nexus_setup_req
pub record SetupReq : Type 0 where
  pub version : ℕ
  pub flags : ℕ
  pub cid : ℕ

-- struct xio_nexus_setup_rsp
pub record SetupRsp : Type 0 where
  pub cid : ℕ
  pub status : ℕ
  pub version : ℕ
  pub flags : ℕ

-- The PACK_SVAL and PACK_LVAL of a request at the place `k` of the memory, and of a response.
unfoldable pub pack_req : SetupReq → ℕ → Buffer → Buffer
pack_req req k b =
    (write_uint32 req.cid (k + 4)
      (write_uint16 req.flags (k + 2) (write_uint16 req.version k b).1).1).1

unfoldable pub pack_rsp : SetupRsp → ℕ → Buffer → Buffer
pack_rsp rsp k b =
    (write_uint16 rsp.flags (k + 10)
      (write_uint16 rsp.version (k + 8)
        (write_uint32 rsp.status (k + 4) (write_uint32 rsp.cid k b).1).1).1).1

-- UNPACK_SVAL and UNPACK_LVAL
unfoldable pub unpack_req : ℕ → Buffer → SetupReq
unpack_req k b = record {
  version = (read_uint16 k b).0;
  flags = (read_uint16 (k + 2) b).0;
  cid = (read_uint32 (k + 4) b).0;
}

unfoldable pub unpack_rsp : ℕ → Buffer → SetupRsp
unpack_rsp k b = record {
  cid = (read_uint32 k b).0;
  status = (read_uint32 (k + 4) b).0;
  version = (read_uint16 (k + 8) b).0;
  flags = (read_uint16 (k + 10) b).0;
}

-- The sizes of the two structures.
abbrev pub req_size : ℕ
req_size = 8

abbrev pub rsp_size : ℕ
rsp_size = 12

-- What is written, or read, once the start of the record is set.
unfoldable pub put_req : SetupReq → Status × Mbuf → Status × Mbuf
put_req req (failed, m) = (failed, m)
put_req req (done, m) =
    let m1 = set_val_start m in
    (done, inc (record m1 { mem = pack_req req (offset m1 m1.curr) m1.mem }) req_size)

unfoldable pub get_req : Status × Mbuf → Option SetupReq × Mbuf
get_req (failed, m) = (none, m)
get_req (done, m) = (some (unpack_req (offset m m.curr) m.mem), inc m req_size)

unfoldable pub put_rsp : SetupRsp → Status × Mbuf → Status × Mbuf
put_rsp rsp (failed, m) = (failed, m)
put_rsp rsp (done, m) =
    (done, inc (record m { mem = pack_rsp rsp (offset m m.curr) m.mem }) rsp_size)

unfoldable pub get_rsp : Status × Mbuf → Option SetupRsp × Mbuf
get_rsp (failed, m) = (none, m)
get_rsp (done, m) = (some (unpack_rsp (offset m m.curr) m.mem), inc m rsp_size)

-- xio_nexus_write_setup_req
unfoldable pub write_setup_req : Mbuf → SetupReq → Status × Mbuf
write_setup_req m req = put_req req (tlv_start (reset m))

-- xio_nexus_read_setup_req
unfoldable pub read_setup_req : Mbuf → Option SetupReq × Mbuf
read_setup_req m = get_req (tlv_start (reset m))

-- xio_nexus_write_setup_rsp and xio_nexus_read_setup_rsp, which do not go back to the start of the
-- buffer
unfoldable pub write_setup_rsp : Mbuf → SetupRsp → Status × Mbuf
write_setup_rsp m rsp = put_rsp rsp (tlv_start m)

unfoldable pub read_setup_rsp : Mbuf → Option SetupRsp × Mbuf
read_setup_rsp m = get_rsp (tlv_start m)

-- The task of a response, put back with its sender; its sender is cleared.
unfoldable pub recycle : Nexus → ℕ → Nexus
recycle n t = put_task (put_sender n t (n.pool.task t).sender_task) t

abbrev pub has_cid : ℕ → Bool
has_cid flags = not (bit_and flags xio_cid == 0)

-- A response with a status: the server does not know the nexus, or the connection failed.
unfoldable pub killed : Nexus → ℕ → Nexus
killed n t = recycle (notify Event.disconnected (state_set State.disconnected n)) t

unfoldable pub on_status : Nexus → ℕ → ℕ → Answers → Bool × Nexus
on_status n t flags ans =
    let n1 = cancel_dwork n in
    if has_cid flags
    then if is n.state State.reconnect
      then (let (prepared, n2) = prep_new_transport n1 ans in
          if prepared then (true, killed n2 t) else (false, n2))
      else (true, killed n1 t)
    else (true, recycle (notify Event.error n) t)

-- A response without one; `pool_created` is whether xio_nexus_primary_pool_create answers 0.
unfoldable pub on_accepted : Nexus → ℕ → Bool → Answers → Bool × Nexus
on_accepted n cid pool_created ans =
    if is n.state State.reconnect
    then (let (prepared, n1) = prep_new_transport (cancel_dwork n) ans in
        if prepared
        then (true, notify Event.reconnected (state_set State.connected n1))
        else (false, n1))
    else let n1 = notify Event.established (state_set State.connected n) in
      if n.srq_enabled
      then (true, record n1 { server_cid = cid })
      else if pool_created
      then (true, record n1 { server_cid = cid })
      else (false, n)

-- xio_nexus_on_recv_setup_rsp, where the response can be read
unfoldable pub on_recv_setup_rsp : Nexus → ℕ → SetupRsp → Bool → Answers → Bool × Nexus
on_recv_setup_rsp n t rsp pool_created ans =
    if rsp.status == 0
    then if rsp.version == xio_version
      then on_accepted (recycle n t) rsp.cid pool_created ans
      else (false, n)
    else on_status n t rsp.flags ans

-- xio_nexus_on_send_setup_rsp_comp
unfoldable pub on_send_setup_rsp_comp : Nexus → ℕ → Nexus
on_send_setup_rsp_comp n t =
    let e = if is n.state State.reconnect then Event.reconnected else Event.established in
    put_task (notify e (state_set State.connected n)) t
