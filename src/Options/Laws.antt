-- ===== src/Options/Laws.antt =====
-- What the options keep to, and what is read of an option that was set.
use accelio.Prelude.{
  ℕ, ◌<◌, ◌≤◌, ◌%◌, ◌^◌, ◌⊎◌, ◌≡◌, Bool, true, false, some, if◌then◌else◌, u64, arith, Bool-cases,
  inl, inr,
}
use accelio.Options.{
  Options, OptName, OptVal, Stored, int, long, keepalive, int_at, iov_in_range, is_power_of_2,
  extend, general_set_opt, general_get_opt, disable_hugetbl, log_fn, log_level, mem_allocator,
  enable_keepalive, config_keepalive, max_in_iovlen, max_out_iovlen, enable_dma_latency,
  enable_reconnect, enable_flow_control, snd_queue_depth_msgs, rcv_queue_depth_msgs,
  snd_queue_depth_bytes, rcv_queue_depth_bytes, config_mempool, max_inline_xio_header,
  max_inline_xio_data, xfer_buf_align, inline_xio_data_align, transport_close_timeout, other,
}

-- An alignment: a power of two that is a multiple of eight.
pub record Aligned (x : ℕ) : Type 0 where
  pub power : is_power_of_2 (extend x) ≡ true
  pub eights : extend x % 8 ≡ 0

-- What the options keep to, whatever is set.
pub record IsValid (o : Options) : Type 0 where
  pub in_least : 4 ≤ o.max_in_iovsz
  pub in_most : o.max_in_iovsz ≤ 256
  pub out_least : 4 ≤ o.max_out_iovsz
  pub out_most : o.max_out_iovsz ≤ 256
  pub snd_some : 0 < o.snd_queue_depth_msgs
  pub snd_int : o.snd_queue_depth_msgs < 2 ^ 31
  pub rcv_some : 0 < o.rcv_queue_depth_msgs
  pub rcv_int : o.rcv_queue_depth_msgs < 2 ^ 31
  pub snd_bytes : 0 < o.snd_queue_depth_bytes
  pub rcv_bytes : 0 < o.rcv_queue_depth_bytes
  pub header : o.max_inline_xio_hdr < 2 ^ 31
  pub inlined : o.max_inline_xio_data < 2 ^ 31
  pub buf_align : Aligned o.xfer_buf_align
  pub data_align : (o.inline_xio_data_align ≡ 0) ⊎ Aligned o.inline_xio_data_align
  pub timeout : o.transport_close_timeout < 2 ^ 31

-- Whatever is set, with any value of any length, and whatever the functions that are called answer,
-- the options keep to their ranges: the numbers of buffers, the depths of the queues, the sizes and
-- the time, and the alignments, which are powers of two and multiples of eight (that of the inline
-- data may be 0).
pub set-IsValid :
    (sizes : ℕ × ℕ × ℕ × ℕ) (answer : Bool) (o : Options) (name : OptName) (v : OptVal) (optlen : ℕ)
    → IsValid o
    → IsValid (general_set_opt sizes answer o name v optlen).1
unfolding general_set_opt
set-IsValid (fn, level, alloc, pool) answer o disable_hugetbl v optlen i = ground (arith, i)
set-IsValid (fn, level, alloc, pool) answer o log_fn v optlen i = ground (arith, i)
set-IsValid (fn, level, alloc, pool) answer o log_level v optlen i = ground (arith, i)
set-IsValid (fn, level, alloc, pool) answer o mem_allocator v optlen i = ground (arith, i)
set-IsValid (fn, level, alloc, pool) answer o enable_keepalive v optlen i = ground (arith, i)
set-IsValid (fn, level, alloc, pool) answer o config_keepalive v optlen i = ground (arith, i)
set-IsValid (fn, level, alloc, pool) answer o max_in_iovlen v optlen i = ground (arith, i)
set-IsValid (fn, level, alloc, pool) answer o max_out_iovlen v optlen i = ground (arith, i)
set-IsValid (fn, level, alloc, pool) answer o enable_dma_latency v optlen i = ground (arith, i)
set-IsValid (fn, level, alloc, pool) answer o enable_reconnect v optlen i = ground (arith, i)
set-IsValid (fn, level, alloc, pool) answer o enable_flow_control v optlen i = ground (arith, i)
set-IsValid (fn, level, alloc, pool) answer o snd_queue_depth_msgs v optlen i = ground (arith, i)
set-IsValid (fn, level, alloc, pool) answer o rcv_queue_depth_msgs v optlen i = ground (arith, i)
set-IsValid (fn, level, alloc, pool) answer o snd_queue_depth_bytes v optlen i = ground (arith, i)
set-IsValid (fn, level, alloc, pool) answer o rcv_queue_depth_bytes v optlen i = ground (arith, i)
set-IsValid (fn, level, alloc, pool) answer o config_mempool v optlen i = ground (arith, i)
set-IsValid (fn, level, alloc, pool) answer o max_inline_xio_header v optlen i = ground (arith, i)
set-IsValid (fn, level, alloc, pool) answer o max_inline_xio_data v optlen i = ground (arith, i)
set-IsValid (fn, level, alloc, pool) answer o xfer_buf_align v optlen i = ground (arith, i)
set-IsValid (fn, level, alloc, pool) answer o inline_xio_data_align v optlen i = ground (arith, i)
set-IsValid (fn, level, alloc, pool) answer o transport_close_timeout v optlen i = ground (arith, i)
set-IsValid (fn, level, alloc, pool) answer o (other k) v optlen i = ground (arith, i)

-- The names that xio_general_get_opt reads here, but for the log's.
abbrev pub readable : OptName → Bool
readable disable_hugetbl = false
readable log_fn = false
readable log_level = false
readable mem_allocator = false
readable enable_dma_latency = false
readable config_mempool = false
readable (other k) = false
readable name = true

-- What a value is read as.
abbrev pub read_as : OptName → OptVal → Stored
read_as snd_queue_depth_bytes v = long (u64 v.word)
read_as rcv_queue_depth_bytes v = long (u64 v.word)
read_as config_keepalive v = keepalive v.keepalive
read_as name v = int (int_at v)

-- A number of buffers is taken over only in its range.
abbrev pub taken_over : OptName → OptVal → Bool
taken_over max_in_iovlen v = iov_in_range (int_at v)
taken_over max_out_iovlen v = iov_in_range (int_at v)
taken_over name v = true

get-accepted :
    (sizes : ℕ × ℕ × ℕ × ℕ) (answer : Bool) (o : Options) (name : OptName) (v : OptVal)
    (optlen level : ℕ)
    → readable name ≡ true
    → let (done, p) = general_set_opt sizes answer o name v optlen in
      done ≡ true
      → general_get_opt level p name 12
        ≡ (if taken_over name v then some (read_as name v) else general_get_opt level o name 12)
unfolding general_set_opt general_get_opt
get-accepted (fn, lv, alloc, pool) answer o disable_hugetbl v optlen level r d =
    ground (arith, r, d)
get-accepted (fn, lv, alloc, pool) answer o log_fn v optlen level r d = ground (arith, r, d)
get-accepted (fn, lv, alloc, pool) answer o log_level v optlen level r d = ground (arith, r, d)
get-accepted (fn, lv, alloc, pool) answer o mem_allocator v optlen level r d = ground (arith, r, d)
get-accepted (fn, lv, alloc, pool) answer o enable_keepalive v optlen level r d =
    ground (arith, r, d)
get-accepted (fn, lv, alloc, pool) answer o config_keepalive v optlen level r d =
    ground (arith, r, d)
get-accepted (fn, lv, alloc, pool) answer o max_in_iovlen v optlen level r d = ground (arith, r, d)
get-accepted (fn, lv, alloc, pool) answer o max_out_iovlen v optlen level r d = ground (arith, r, d)
get-accepted (fn, lv, alloc, pool) answer o enable_dma_latency v optlen level r d =
    ground (arith, r, d)
get-accepted (fn, lv, alloc, pool) answer o enable_reconnect v optlen level r d =
    ground (arith, r, d)
get-accepted (fn, lv, alloc, pool) answer o enable_flow_control v optlen level r d =
    ground (arith, r, d)
get-accepted (fn, lv, alloc, pool) answer o snd_queue_depth_msgs v optlen level r d =
    ground (arith, r, d)
get-accepted (fn, lv, alloc, pool) answer o rcv_queue_depth_msgs v optlen level r d =
    ground (arith, r, d)
get-accepted (fn, lv, alloc, pool) answer o snd_queue_depth_bytes v optlen level r d =
    ground (arith, r, d)
get-accepted (fn, lv, alloc, pool) answer o rcv_queue_depth_bytes v optlen level r d =
    ground (arith, r, d)
get-accepted (fn, lv, alloc, pool) answer o config_mempool v optlen level r d = ground (arith, r, d)
get-accepted (fn, lv, alloc, pool) answer o max_inline_xio_header v optlen level r d =
    ground (arith, r, d)
get-accepted (fn, lv, alloc, pool) answer o max_inline_xio_data v optlen level r d =
    ground (arith, r, d)
get-accepted (fn, lv, alloc, pool) answer o xfer_buf_align v optlen level r d = ground (arith, r, d)
get-accepted (fn, lv, alloc, pool) answer o inline_xio_data_align v optlen level r d =
    ground (arith, r, d)
get-accepted (fn, lv, alloc, pool) answer o transport_close_timeout v optlen level r d =
    ground (arith, r, d)
get-accepted (fn, lv, alloc, pool) answer o (other k) v optlen level r d = ground (arith, r, d)

refused_kept :
    (sizes : ℕ × ℕ × ℕ × ℕ) (o : Options) (name : OptName) (v : OptVal) (optlen : ℕ)
    → let (done, p) = general_set_opt sizes true o name v optlen in done ≡ false → p ≡ o
unfolding general_set_opt
refused_kept (fn, lv, alloc, pool) o disable_hugetbl v optlen d = ground (arith, d)
refused_kept (fn, lv, alloc, pool) o log_fn v optlen d = ground (arith, d)
refused_kept (fn, lv, alloc, pool) o log_level v optlen d = ground (arith, d)
refused_kept (fn, lv, alloc, pool) o mem_allocator v optlen d = ground (arith, d)
refused_kept (fn, lv, alloc, pool) o enable_keepalive v optlen d = ground (arith, d)
refused_kept (fn, lv, alloc, pool) o config_keepalive v optlen d = ground (arith, d)
refused_kept (fn, lv, alloc, pool) o max_in_iovlen v optlen d = ground (arith, d)
refused_kept (fn, lv, alloc, pool) o max_out_iovlen v optlen d = ground (arith, d)
refused_kept (fn, lv, alloc, pool) o enable_dma_latency v optlen d = ground (arith, d)
refused_kept (fn, lv, alloc, pool) o enable_reconnect v optlen d = ground (arith, d)
refused_kept (fn, lv, alloc, pool) o enable_flow_control v optlen d = ground (arith, d)
refused_kept (fn, lv, alloc, pool) o snd_queue_depth_msgs v optlen d = ground (arith, d)
refused_kept (fn, lv, alloc, pool) o rcv_queue_depth_msgs v optlen d = ground (arith, d)
refused_kept (fn, lv, alloc, pool) o snd_queue_depth_bytes v optlen d = ground (arith, d)
refused_kept (fn, lv, alloc, pool) o rcv_queue_depth_bytes v optlen d = ground (arith, d)
refused_kept (fn, lv, alloc, pool) o config_mempool v optlen d = ground (arith, d)
refused_kept (fn, lv, alloc, pool) o max_inline_xio_header v optlen d = ground (arith, d)
refused_kept (fn, lv, alloc, pool) o max_inline_xio_data v optlen d = ground (arith, d)
refused_kept (fn, lv, alloc, pool) o xfer_buf_align v optlen d = ground (arith, d)
refused_kept (fn, lv, alloc, pool) o inline_xio_data_align v optlen d = ground (arith, d)
refused_kept (fn, lv, alloc, pool) o transport_close_timeout v optlen d = ground (arith, d)
refused_kept (fn, lv, alloc, pool) o (other k) v optlen d = ground (arith, d)

-- Of the options that xio_general_get_opt reads back, that is all but those of huge pages, the log, the
-- allocator, the DMA latency and the memory pools: where no function of another part refuses an
-- option, it is either set, and then it is read, with the length of the keepalive options, as the
-- value that it was set to (a number of buffers if it is in its range, and as it was before
-- otherwise); or it is refused, and all options are as they were.
pub get-set :
    (sizes : ℕ × ℕ × ℕ × ℕ) (o : Options) (name : OptName) (v : OptVal) (optlen level : ℕ)
    → readable name ≡ true
    → let r = general_set_opt sizes true o name v optlen in
      if r.0
      then general_get_opt level r.1 name 12
        ≡ (if taken_over name v then some (read_as name v) else general_get_opt level o name 12)
      else r.1 ≡ o
get-set sizes o name v optlen level h =
    elim (Bool-cases (general_set_opt sizes true o name v optlen).0) [
      | inl d ↦ rw d (get-accepted sizes true o name v optlen level h d)
      | inr d ↦ rw d (refused_kept sizes o name v optlen d)
    ]
