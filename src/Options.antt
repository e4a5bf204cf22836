-- ===== src/Options.antt =====
-- src/common/xio_options.c: the options of the library, set and read by name.
-- An `int` is its 32 bits. The memory that `optval` points to is the number of its first eight bytes
-- (little-endian), and the keepalive options that it reads as.
pub mod Laws
mod Tests
use Prim.Native.Nat.{bit_and}
use accelio.Prelude.{
  ℕ, zero, suc, ◌+◌, ◌-◌, ◌*◌, ◌%◌, ◌^◌, Bool, true, false, not, ◌||◌, ◌&&◌, Option, none, some,
  List, [], ◌∷◌, if◌then◌else◌, ltb, leb, ◌==◌, u32, u64, sub_wrap,
}

-- struct xio_options_keepalive
pub record Keepalive : Type 0 where
  pub probes : ℕ
  pub time : ℕ
  pub intvl : ℕ

-- struct xio_options
pub record Options : Type 0 where
  pub max_in_iovsz : ℕ
  pub max_out_iovsz : ℕ
  pub reconnect : ℕ
  pub max_inline_xio_hdr : ℕ
  pub max_inline_xio_data : ℕ
  pub enable_flow_control : ℕ
  pub snd_queue_depth_msgs : ℕ
  pub rcv_queue_depth_msgs : ℕ
  pub snd_queue_depth_bytes : ℕ
  pub rcv_queue_depth_bytes : ℕ
  pub xfer_buf_align : ℕ
  pub inline_xio_data_align : ℕ
  pub enable_keepalive : ℕ
  pub transport_close_timeout : ℕ
  pub ka : Keepalive

-- enum xio_optname, those of the level XIO_OPTLEVEL_ACCELIO
pub data OptName : Type 0 where
  disable_hugetbl log_fn log_level mem_allocator enable_keepalive config_keepalive : OptName
  max_in_iovlen max_out_iovlen enable_dma_latency enable_reconnect enable_flow_control : OptName
  snd_queue_depth_msgs rcv_queue_depth_msgs snd_queue_depth_bytes rcv_queue_depth_bytes : OptName
  config_mempool max_inline_xio_header max_inline_xio_data : OptName
  xfer_buf_align inline_xio_data_align transport_close_timeout : OptName
  other : ℕ → OptName

-- What `optval` points to.
pub record OptVal : Type 0 where
  pub null : Bool
  pub word : ℕ
  pub keepalive : Keepalive

-- XIO_IOVLEN, XIO_MAX_IOV
abbrev pub iovlen : ℕ
iovlen = 4

abbrev pub max_iov : ℕ
max_iov = 256

-- g_options
abbrev pub defaults : Options
defaults = record {
  max_in_iovsz = iovlen;
  max_out_iovsz = iovlen;
  reconnect = 0;
  max_inline_xio_hdr = 256;
  max_inline_xio_data = 8 * 1024;
  enable_flow_control = 0;
  snd_queue_depth_msgs = 1024;
  rcv_queue_depth_msgs = 1024;
  snd_queue_depth_bytes = 64 * 1024 * 1024;
  rcv_queue_depth_bytes = 64 * 1024 * 1024;
  xfer_buf_align = 64;
  inline_xio_data_align = 0;
  enable_keepalive = 1;
  transport_close_timeout = 60000;
  ka = record { probes = 3; time = 60; intvl = 20 };
}

-- `*(int *)optval`
abbrev pub int_at : OptVal → ℕ
int_at v = u32 v.word

-- An `int` that is less than 0, and one that is less than 1.
abbrev pub negative : ℕ → Bool
negative x = leb (2 ^ 31) x

abbrev pub below_one : ℕ → Bool
below_one x = (x == 0) || negative x

-- An `int` as an `unsigned long`.
abbrev pub extend : ℕ → ℕ
extend x = if negative x then x + 2 ^ 64 - 2 ^ 32 else x

-- is_power_of_2 of src/libxio_os/linuxapp/xio_env.h
abbrev pub is_power_of_2 : ℕ → Bool
is_power_of_2 n = not (n == 0) && (bit_and n (sub_wrap 64 n 1) == 0)

abbrev pub aligned : ℕ → Bool
aligned x = is_power_of_2 (extend x) && (extend x % 8 == 0)

-- A number of buffers that is taken over.
abbrev pub iov_in_range : ℕ → Bool
iov_in_range x = not (negative x) && (ltb iovlen x && leb x max_iov)

abbrev pub refuse : Options → Bool × Options
refuse o = (false, o)

-- xio_general_set_opt; `true` is 0. `optlen` is the length that is given, `sizes` are those of a log
-- function, a log level, an allocator and a memory pool's configuration, and `answer` is what the
-- functions that a case calls answer: those of the log and of memory, or the transports'.
unfoldable pub general_set_opt :
    (ℕ × ℕ × ℕ × ℕ) → Bool → Options → OptName → OptVal → ℕ → Bool × Options
general_set_opt (fn, level, alloc, pool) answer o log_fn v optlen =
    if ((optlen == 0) && v.null) || (optlen == fn) then (answer, o) else refuse o
general_set_opt (fn, level, alloc, pool) answer o log_level v optlen =
    if optlen == level then (answer, o) else refuse o
general_set_opt sizes answer o disable_hugetbl v optlen = (true, o)
general_set_opt (fn, level, alloc, pool) answer o mem_allocator v optlen =
    if optlen == alloc then (answer, o) else refuse o
general_set_opt (fn, level, alloc, pool) answer o config_mempool v optlen =
    if optlen == pool then (true, o) else refuse o
general_set_opt sizes answer o max_in_iovlen v optlen =
    if optlen == 4
    then if iov_in_range (int_at v)
      then (answer, record o { max_in_iovsz = int_at v })
      else (true, o)
    else refuse o
general_set_opt sizes answer o max_out_iovlen v optlen =
    if optlen == 4
    then if iov_in_range (int_at v)
      then (answer, record o { max_out_iovsz = int_at v })
      else (true, o)
    else refuse o
general_set_opt sizes answer o enable_dma_latency v optlen =
    if optlen == 4 then (answer, o) else refuse o
general_set_opt sizes answer o enable_reconnect v optlen = (
  true,
  record o {
    reconnect = int_at v;
    enable_keepalive = if int_at v == 0 then o.enable_keepalive else 0;
  },
)
general_set_opt sizes answer o enable_flow_control v optlen =
    (true, record o { enable_flow_control = int_at v })
general_set_opt sizes answer o snd_queue_depth_msgs v optlen =
    if below_one (int_at v)
    then refuse o
    else (true, record o { snd_queue_depth_msgs = u32 (u64 v.word) })
general_set_opt sizes answer o rcv_queue_depth_msgs v optlen =
    if below_one (int_at v) then refuse o else (true, record o { rcv_queue_depth_msgs = int_at v })
general_set_opt sizes answer o snd_queue_depth_bytes v optlen =
    if u64 v.word == 0 then refuse o else (true, record o { snd_queue_depth_bytes = u64 v.word })
general_set_opt sizes answer o rcv_queue_depth_bytes v optlen =
    if u64 v.word == 0 then refuse o else (true, record o { rcv_queue_depth_bytes = u64 v.word })
general_set_opt sizes answer o max_inline_xio_header v optlen =
    if (optlen == 4) && not (negative (int_at v))
    then (true, record o { max_inline_xio_hdr = int_at v })
    else refuse o
general_set_opt sizes answer o max_inline_xio_data v optlen =
    if (optlen == 4) && not (negative (int_at v))
    then (true, record o { max_inline_xio_data = int_at v })
    else refuse o
general_set_opt sizes answer o xfer_buf_align v optlen =
    if (optlen == 4) && aligned (int_at v)
    then (true, record o { xfer_buf_align = int_at v })
    else refuse o
general_set_opt sizes answer o inline_xio_data_align v optlen =
    if (optlen == 4) && ((int_at v == 0) || aligned (int_at v))
    then (true, record o { inline_xio_data_align = int_at v })
    else refuse o
general_set_opt sizes answer o enable_keepalive v optlen =
    (true, record o { enable_keepalive = int_at v })
general_set_opt sizes answer o config_keepalive v optlen =
    if optlen == 12 then (true, record o { ka = v.keepalive }) else refuse o
general_set_opt sizes answer o transport_close_timeout v optlen =
    if (optlen == 4) && not (negative (int_at v))
    then (true, record o { transport_close_timeout = int_at v })
    else refuse o
general_set_opt sizes answer o (other name) v optlen = refuse o

-- What xio_general_get_opt stores: an int or a 64-bit number, or the keepalive options.
pub data Stored : Type 0 where
  int : ℕ → Stored
  long : ℕ → Stored
  keepalive : Keepalive → Stored

-- xio_general_get_opt; `level` is that of the log, `optlen` is read for the keepalive options only
unfoldable pub general_get_opt : ℕ → Options → OptName → ℕ → Option Stored
general_get_opt level o log_level optlen = some (int level)
general_get_opt level o max_in_iovlen optlen = some (int o.max_in_iovsz)
general_get_opt level o max_out_iovlen optlen = some (int o.max_out_iovsz)
general_get_opt level o enable_reconnect optlen = some (int o.reconnect)
general_get_opt level o enable_flow_control optlen = some (int o.enable_flow_control)
general_get_opt level o snd_queue_depth_msgs optlen = some (int o.snd_queue_depth_msgs)
general_get_opt level o rcv_queue_depth_msgs optlen = some (int o.rcv_queue_depth_msgs)
general_get_opt level o snd_queue_depth_bytes optlen = some (long o.snd_queue_depth_bytes)
general_get_opt level o rcv_queue_depth_bytes optlen = some (long o.rcv_queue_depth_bytes)
general_get_opt level o max_inline_xio_header optlen = some (int o.max_inline_xio_hdr)
general_get_opt level o max_inline_xio_data optlen = some (int o.max_inline_xio_data)
general_get_opt level o inline_xio_data_align optlen = some (int o.inline_xio_data_align)
general_get_opt level o xfer_buf_align optlen = some (int o.xfer_buf_align)
general_get_opt level o enable_keepalive optlen = some (int o.enable_keepalive)
general_get_opt level o config_keepalive optlen =
    if optlen == 12 then some (keepalive o.ka) else none
general_get_opt level o transport_close_timeout optlen = some (int o.transport_close_timeout)
general_get_opt level o disable_hugetbl optlen = none
general_get_opt level o log_fn optlen = none
general_get_opt level o mem_allocator optlen = none
general_get_opt level o enable_dma_latency optlen = none
general_get_opt level o config_mempool optlen = none
general_get_opt level o (other name) optlen = none

-- XIO_OPTLEVEL_ACCELIO, XIO_OPTLEVEL_RDMA, XIO_OPTLEVEL_TCP and any other level
pub data OptLevel : Type 0 where
  general rdma tcp unknown : OptLevel

-- A transport as the options see it: what its set_opt answers, if it has one.
abbrev pub transport_set : Option (Option Bool) → Bool
transport_set none = false
transport_set (some none) = false
transport_set (some (some answer)) = answer

-- xio_set_opt, where `rdma_transport` and `tcp_transport` are those that can be loaded
unfoldable pub set_opt :
    (ℕ × ℕ × ℕ × ℕ)
    → Bool
    → Option (Option Bool)
    → Option (Option Bool)
    → Options
    → OptLevel
    → OptName
    → OptVal
    → ℕ
    → Bool × Options
set_opt sizes answer rdma_transport tcp_transport o general name v optlen =
    general_set_opt sizes answer o name v optlen
set_opt sizes answer rdma_transport tcp_transport o rdma name v optlen =
    (transport_set rdma_transport, o)
set_opt sizes answer rdma_transport tcp_transport o tcp name v optlen =
    (transport_set tcp_transport, o)
set_opt sizes answer rdma_transport tcp_transport o unknown name v optlen = (false, o)
