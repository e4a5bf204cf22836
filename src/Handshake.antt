-- ===== src/Handshake.antt =====
-- The first messages of a session: the setup request that xio_session_write_setup_req of
-- src/common/xio_session_client.c writes and xio_on_setup_req_recv of xio_session_server.c reads,
-- and the responses that xio_session_server.c writes and xio_read_setup_rsp of
-- xio_session_client.c reads. `ptr` is a position in the message's buffer.
pub mod Fields
pub mod Request
pub mod Accept
mod Tests
use accelio.Prelude.{
  u16, ℕ, zero, suc, take, ◌+◌, Bool, true, false, Option, none, some, List, [], ◌∷◌, if◌then◌else◌,
  ltb, ◌==◌, length, replicate,
}
use accelio.Wire.{
  Buffer, write_uint16, write_uint32, write_uint64, read_uint16, read_uint32, read_uint64,
  put_bytes, get_bytes,
}

-- SETUP_BUFFER_LEN
abbrev pub setup_buffer_len : ℕ
setup_buffer_len = 3840

-- `len = xio_write_...(v, 0, ptr); ptr = ptr + len;`
abbrev pub At : Type 0
At = ℕ × Buffer

unfoldable pub put16 : ℕ → At → At
put16 v (p, b) = let (len, b') = write_uint16 v p b in (p + len, b')

unfoldable pub put32 : ℕ → At → At
put32 v (p, b) = let (len, b') = write_uint32 v p b in (p + len, b')

unfoldable pub put64 : ℕ → At → At
put64 v (p, b) = let (len, b') = write_uint64 v p b in (p + len, b')

-- xio_write_array
unfoldable pub put_array : Buffer → At → At
put_array xs (p, b) = (p + length xs, put_bytes xs p b)

-- What the client's session says of itself.
pub record SetupReq : Type 0 where
  pub session_id : ℕ
  pub snd_queue_depth_bytes : ℕ
  pub rcv_queue_depth_bytes : ℕ
  pub snd_queue_depth_msgs : ℕ
  pub rcv_queue_depth_msgs : ℕ
  pub uri : Buffer
  pub private_data : Buffer

-- The fixed part of the request, and the two arrays after it; an empty array is not written.
unfoldable pub put_setup_req : SetupReq → At → At
put_setup_req s a =
    let a1 = put32 s.session_id a in
    let a2 = put64 s.snd_queue_depth_bytes a1 in
    let a3 = put64 s.rcv_queue_depth_bytes a2 in
    let a4 = put16 (u16 s.snd_queue_depth_msgs) a3 in
    let a5 = put16 (u16 s.rcv_queue_depth_msgs) a4 in
    let a6 = put16 (u16 (length s.uri)) a5 in
    let a7 = put16 (u16 (length s.private_data)) a6 in
    let a8 = if length s.uri == 0 then a7 else put_array s.uri a7 in
    if length s.private_data == 0 then a8 else put_array s.private_data a8

-- The test of the length, which stands after the writes.
unfoldable pub check_len : At → Option At
check_len a = if ltb setup_buffer_len a.0 then none else some a

-- xio_session_write_setup_req: the length of the message with its buffer; `memory` is whether
-- kcalloc succeeds
unfoldable pub write_setup_req : Bool → SetupReq → Option At
write_setup_req memory s =
    if memory then check_len (put_setup_req s (0, replicate setup_buffer_len 0)) else none

-- The array that follows at `p`, and the position after it.
unfoldable pub get_array : ℕ → ℕ → Buffer → Buffer × ℕ
get_array n p b = if n == 0 then ([], p) else (get_bytes n p b, p + n)

-- What xio_on_setup_req_recv reads; the allocations succeed.
unfoldable pub read_setup_req : Buffer → SetupReq
read_setup_req b =
    let (session_id, l1) = read_uint32 0 b in
    let (snd_bytes, l2) = read_uint64 l1 b in
    let (rcv_bytes, l3) = read_uint64 (l1 + l2) b in
    let (snd_msgs, l4) = read_uint16 (l1 + l2 + l3) b in
    let (rcv_msgs, l5) = read_uint16 (l1 + l2 + l3 + l4) b in
    let (uri_len, l6) = read_uint16 (l1 + l2 + l3 + l4 + l5) b in
    let (data_len, l7) = read_uint16 (l1 + l2 + l3 + l4 + l5 + l6) b in
    let (uri, p) = get_array uri_len (l1 + l2 + l3 + l4 + l5 + l6 + l7) b in
    let (contents, q) = get_array data_len p b in
    record {
      session_id = session_id;
      snd_queue_depth_bytes = snd_bytes;
      rcv_queue_depth_bytes = rcv_bytes;
      snd_queue_depth_msgs = snd_msgs;
      rcv_queue_depth_msgs = rcv_msgs;
      uri = uri;
      private_data = contents;
    }

-- XIO_ACTION_ACCEPT, XIO_ACTION_REDIRECT, XIO_ACTION_REJECT
abbrev pub action_accept : ℕ
action_accept = 1

abbrev pub action_redirect : ℕ
action_redirect = 2

abbrev pub action_reject : ℕ
action_reject = 3

-- What the server's session says of itself.
pub record Depths : Type 0 where
  pub session_id : ℕ
  pub snd_queue_depth_bytes : ℕ
  pub rcv_queue_depth_bytes : ℕ
  pub snd_queue_depth_msgs : ℕ
  pub rcv_queue_depth_msgs : ℕ

-- The loop over the portals: each one's length, of 16 bits, and that many of its bytes.
unfoldable pub put_portals : List Buffer → At → At
put_portals [] a = a
put_portals (s ∷ ss) a = let n = u16 (length s) in put_portals ss (put_array (take n s) (put16 n a))

unfoldable pub put_depths : Depths → At → At
put_depths s a =
    put16 s.rcv_queue_depth_msgs (
      put16 s.snd_queue_depth_msgs
        (put64 s.rcv_queue_depth_bytes (put64 s.snd_queue_depth_bytes a)))

unfoldable pub put_accept_rsp : ℕ → Depths → List Buffer → Buffer → At → At
put_accept_rsp action s portals context a =
    let a1 = put16 action (put32 s.session_id a) in
    let a2 = if action == action_accept then put_depths s a1 else a1 in
    let a3 = put16 (length context) (put16 (length portals) a2) in
    let a4 = put_portals portals a3 in if length context == 0 then a4 else put_array context a4

abbrev pub portals_len : List Buffer → ℕ
portals_len [] = 0
portals_len (s ∷ ss) = length s + 2 + portals_len ss

-- `tot_len`, a uint16_t
abbrev pub accept_len : List Buffer → Buffer → ℕ
accept_len portals context = u16 (30 + portals_len portals + length context)

-- xio_session_write_accept_rsp; the numbers of portals and of bytes in the context are uint16_t
unfoldable pub write_accept_rsp : Bool → ℕ → Depths → List Buffer → Buffer → Option At
write_accept_rsp memory action s portals context =
    if ltb setup_buffer_len (accept_len portals context)
    then none
    else if memory
    then some (put_accept_rsp action s portals context (0, replicate setup_buffer_len 0))
    else none

-- xio_session_write_reject_rsp
unfoldable pub write_reject_rsp : Bool → Depths → ℕ → Buffer → Option At
write_reject_rsp memory s reason context =
    let a1 = put16 action_reject (put32 s.session_id (0, replicate setup_buffer_len 0)) in
    let a2 = put16 (length context) (put32 reason a1) in
    let a3 = if length context == 0 then a2 else put_array context a2 in
    if ltb setup_buffer_len (u16 (12 + length context))
    then none
    else if memory
    then some a3
    else none

-- What the client learns from a response. A redirection's private data is announced, but not read.
pub data SetupRsp : Type 0 where
  accepted : Depths → List Buffer → Buffer → SetupRsp
  redirected : ℕ → List Buffer → SetupRsp
  rejected : ℕ → ℕ → Buffer → SetupRsp
  unknown : ℕ → SetupRsp

-- The loop over `n` strings at `p`, and the position after them.
unfoldable pub get_portals : ℕ → ℕ → Buffer → List Buffer × ℕ
get_portals zero p b = ([], p)
get_portals (suc n) p b =
    let (str_len, l) = read_uint16 p b in
    let (rest, q) = get_portals n (p + l + str_len) b in (get_bytes str_len (p + l) b ∷ rest, q)

unfoldable pub read_accept : ℕ → ℕ → Buffer → SetupRsp
read_accept id p b =
    let (snd_bytes, l1) = read_uint64 p b in
    let (rcv_bytes, l2) = read_uint64 (p + l1) b in
    let (snd_msgs, l3) = read_uint16 (p + l1 + l2) b in
    let (rcv_msgs, l4) = read_uint16 (p + l1 + l2 + l3) b in
    let (portals_nr, l5) = read_uint16 (p + l1 + l2 + l3 + l4) b in
    let (context_len, l6) = read_uint16 (p + l1 + l2 + l3 + l4 + l5) b in
    let (portals, q) = get_portals portals_nr (p + l1 + l2 + l3 + l4 + l5 + l6) b in
    let (context, r) = get_array context_len q b in
    accepted
      (record {
        session_id = id;
        snd_queue_depth_bytes = snd_bytes;
        rcv_queue_depth_bytes = rcv_bytes;
        snd_queue_depth_msgs = snd_msgs;
        rcv_queue_depth_msgs = rcv_msgs;
      })
      portals context

unfoldable pub read_redirect : ℕ → ℕ → Buffer → SetupRsp
read_redirect id p b =
    let (services_nr, l1) = read_uint16 p b in
    let (context_len, l2) = read_uint16 (p + l1) b in
    redirected id (get_portals services_nr (p + l1 + l2) b).0

unfoldable pub read_reject : ℕ → ℕ → Buffer → SetupRsp
read_reject id p b =
    let (reason, l1) = read_uint32 p b in
    let (context_len, l2) = read_uint16 (p + l1) b in
    rejected id reason (get_array context_len (p + l1 + l2) b).0

-- xio_read_setup_rsp, where the allocations succeed
unfoldable pub read_setup_rsp : Buffer → SetupRsp
read_setup_rsp b =
    let (id, l1) = read_uint32 0 b in
    let (action, l2) = read_uint16 l1 b in
    if action == action_accept
    then read_accept id (l1 + l2) b
    else if action == action_redirect
    then read_redirect id (l1 + l2) b
    else if action == action_reject
    then read_reject id (l1 + l2) b
    else unknown id
