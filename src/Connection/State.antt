-- ===== src/Connection/State.antt =====
-- The state of one end of a connection.
use accelio.Prelude.{sub_wrap, u32, ℕ, ◌+◌, Bool, true, false, ◌&&◌, List, ◌∷◌, if◌then◌else◌, ◌==◌}
use accelio.Message.{Msg}

-- enum xio_connection_state
pub data State : Type 0 where
  init established online fin_wait_1 fin_wait_2 closing time_wait close_wait last_ack closed
        disconnected error invalid :
      State

-- The reasons of enum xio_status that the connection gives.
pub data Reason : Type 0 where
  success session_closed session_disconnected session_rejected timeout connect_error msg_flushed
        peer_queue_size_mismatch other_error :
      Reason

-- What handing a task to the nexus gives.
pub data Answer : Type 0 where
  sent : Answer  -- xio_nexus_send returns 0
  again : Answer  -- it returns -EAGAIN
  no_task : Answer  -- xio_nexus_get_primary_task returns NULL
  message_error : Answer  -- it fails with the error ENOMSG
  nexus_error : Answer  -- any other failure

-- The delayed work of the keepalive.
pub data KaTimer : Type 0 where
  off start_timer time_timer intvl_timer : KaTimer

-- `struct xio_session_hdr` without what does not depend on the connection.
pub record Header : Type 0 where
  pub serial_num : ℕ
  pub sn : ℕ
  pub ack_sn : ℕ
  pub credits_msgs : ℕ
  pub credits_bytes : ℕ

pub data Event : Type 0 where
  transmitted : Msg → Header → Event
  send_complete rdma_complete : Msg → Event
  msg_error : Msg → Reason → Event
  connection_closed connection_disconnected connection_refused connection_error : Reason → Event
  connection_established new_connection teardown_queued released destroy_denied reconnecting
        reconnected :
      Event

pub record Conn : Type 0 where
  pub state : State
  pub enable_flow_control : Bool
  pub req_sn : ℕ  -- uint16_t
  pub req_exp_sn : ℕ
  pub req_ack_sn : ℕ
  pub rsp_sn : ℕ
  pub rsp_exp_sn : ℕ
  pub rsp_ack_sn : ℕ
  pub credits_msgs : ℕ
  pub peer_credits_msgs : ℕ
  pub rx_queue_watermark_msgs : ℕ
  pub credits_bytes : ℕ  -- uint64_t
  pub peer_credits_bytes : ℕ
  pub rx_queue_watermark_bytes : ℕ
  pub tx_queued_msgs : ℕ  -- int32_t, as its bits
  pub tx_bytes : ℕ  -- size_t
  pub reqs_msgq : List Msg
  pub rsps_msgq : List Msg
  pub in_flight_reqs_msgq : List Msg
  pub in_flight_rsps_msgq : List Msg
  pub send_req_toggle : Bool
  pub fin_req_timeout : ℕ  -- uint16_t
  pub disable_notify : Bool
  pub disconnecting : Bool
  pub restarted : Bool
  pub is_flushed : Bool
  pub cd_bit : Bool
  pub fin_request_flushed : Bool
  pub close_reason : Reason
  pub kref : ℕ  -- int
  pub ka_probes : ℕ
  pub ka_req_sent : Bool
  pub ka_timedout : Bool
  -- the works that are pending in the context
  pub hello_work : Bool
  pub fin_work : Bool
  pub teardown_work : Bool
  pub fin_delayed_work : Bool
  pub fin_timeout_work : Bool
  pub ka_timer : KaTimer
  -- of the session
  pub session_online : Bool
  pub session_was_rejected : Bool
  pub trans_sn : ℕ  -- uint64_t
  pub snd_queue_depth_msgs : ℕ
  pub snd_queue_depth_bytes : ℕ
  pub peer_rcv_queue_depth_msgs : ℕ
  pub peer_rcv_queue_depth_bytes : ℕ
  -- of the library and the outside
  pub in_idr : Bool
  pub timer_ok : Bool
  pub nexus : List Answer
  pub log : List Event

abbrev pub emit : Event → Conn → Conn
emit e c = record c { log = e ∷ c.log }

abbrev pub is_online : State → Bool
is_online online = true
is_online _ = false

abbrev pub is_disconnected : State → Bool
is_disconnected disconnected = true
is_disconnected _ = false

-- xio_is_connection_online
abbrev pub is_connection_online : Conn → Bool
is_connection_online c = c.session_online && is_online c.state

-- kref_get
abbrev pub kref_get : Conn → Conn
kref_get c = record c { kref = u32 (c.kref + 1) }

-- kref_put: the last reference runs xio_connection_post_destroy, which frees the connection.
abbrev pub kref_put : Conn → Conn
kref_put c =
    let c' = record c { kref = sub_wrap 32 c.kref 1 } in
    if c'.kref == 0 then emit released c' else c'
