-- ===== src/Message.antt =====
-- Message types and flags: include/xio_base.h and src/common/xio_common.h.
-- The type of a message is a set of bits. `MsgType` has a constructor for each type that the
-- connection handles, `code` its bits, and the tests IS_REQUEST and so on read the bits.
use Prim.Native.Nat.{bit_and}
use accelio.Prelude.{ℕ, ◌+◌, Bool, ◌||◌, not, ◌==◌}

pub data MsgType : Type 0 where
  req rsp one_way_req one_way_rsp rdma fin_req fin_rsp hello_req hello_rsp ka_req ka_rsp ack_req :
      MsgType

abbrev pub xio_request : ℕ
xio_request = 0x2

abbrev pub xio_response : ℕ
xio_response = 0x4

abbrev pub xio_rdma : ℕ
xio_rdma = 0x8

abbrev pub xio_message : ℕ
xio_message = 0x10

abbrev pub xio_one_way : ℕ
xio_one_way = 0x20

abbrev pub code : MsgType → ℕ
code req = xio_message + xio_request
code rsp = xio_message + xio_response
code one_way_req = xio_one_way + xio_request
code one_way_rsp = xio_one_way + xio_response
code rdma = xio_rdma
code fin_req = 0x400 + xio_request
code fin_rsp = 0x400 + xio_response
code hello_req = 0x200 + xio_request
code hello_rsp = 0x200 + xio_response
code ka_req = 0x4000 + xio_request
code ka_rsp = 0x4000 + xio_response
code ack_req = 0x1000 + xio_request

abbrev pub test_bits : ℕ → ℕ → Bool
test_bits mask x = not (bit_and x mask == 0)

-- IS_REQUEST, IS_RESPONSE, IS_APPLICATION_MSG
abbrev pub is_request : MsgType → Bool
is_request t = test_bits xio_request (code t)

abbrev pub is_response : MsgType → Bool
is_response t = test_bits xio_response (code t)

abbrev pub is_application_msg : MsgType → Bool
is_application_msg t =
    test_bits xio_message (code t) || test_bits xio_one_way (code t) || test_bits xio_rdma (code t)

-- What the connection reads of a `struct xio_msg`: its type, its serial number, the bytes of its
-- outgoing header and data (`out.header.iov_len + tbl_length`), and whether its receipt flags are
-- exactly XIO_MSG_FLAG_EX_RECEIPT_FIRST.
pub record Msg : Type 0 where
  pub type : MsgType
  pub sn : ℕ
  pub tx_bytes : ℕ
  pub receipt_only : Bool
