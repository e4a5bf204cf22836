-- ===== src/Connection/Setup/Deferred.antt =====
-- A close that is asked for early is not lost.
use accelio.Prelude.{ℕ, ◌+◌, ◌<◌, ◌^◌, ap, Bool, true, false, ◌≡◌, ◌∙◌, arith}
use accelio.Connection.State.{
  Conn, State, init, online, Answer, Header, sent, again, no_task, message_error, nexus_error,
}
use accelio.Message.{Msg}
use accelio.Connection.Send.{charge, restore, deliver, hand_over, send}
use accelio.Message.MsgType.{hello_rsp}
use accelio.Connection.State.{fin_wait_1}
use accelio.Connection.Close.{disconnect, pre_disconnect, control_msg}
use accelio.Connection.Close.Frame.{View, view, view-send}
use accelio.Connection.Close.Views.{Plain, view-pre_disconnect}
use accelio.Connection.Keepalive.{Options, keepalive_start}
use accelio.Connection.Setup.{
  on_hello_rsp_recv, on_hello_req_recv, on_hello_rsp_send_comp, send_hello_rsp,
}

-- A close has begun: the context is about to send the FIN.
abbrev pub Closing : Conn → Type 0
Closing c = (c.state ≡ online) × (c.disconnecting ≡ true) × (c.fin_work ≡ true)

-- At the client, a close that the application asks for before the peer's hello comes, or when it
-- hears that the connection is established, begins when the hello is handled.
pub client_disconnect_kept :
    (o : Options) (c : Conn)
    → c.state ≡ init
    → Closing (on_hello_rsp_recv o false (disconnect c))
      × Closing (on_hello_rsp_recv o true (record c { disconnecting = false }))
unfolding on_hello_rsp_recv disconnect keepalive_start
client_disconnect_kept o c i = (ground (arith, i), ground (arith, i))

disconnecting-send_hello_rsp :
    (sn : ℕ) (c : Conn) → (send_hello_rsp sn c).disconnecting ≡ c.disconnecting
unfolding send_hello_rsp
disconnecting-send_hello_rsp sn c =
    ap (λ (v : View). v.disconnecting) (view-send c (control_msg hello_rsp sn))

completion_closes : (c : Conn) → c.disconnecting ≡ true → Closing (on_hello_rsp_send_comp c)
unfolding on_hello_rsp_send_comp disconnect
completion_closes c h = ground (arith, h)

-- The transmission does not touch the work that sends the FIN.
fin_work-charge : (c : Conn) (m : Msg) → (charge c m).fin_work ≡ c.fin_work
unfolding charge
fin_work-charge c m = ground arith

fin_work-restore : (c : Conn) (m : Msg) (h : Header) → (restore c m h).fin_work ≡ c.fin_work
unfolding restore
fin_work-restore c m h = ground arith

fin_work-deliver :
    (a : Answer) (m : Msg) (h : Header) (c0 c1 : Conn)
    → c1.fin_work ≡ c0.fin_work
    → (deliver a m h c0 c1).1.fin_work ≡ c0.fin_work
unfolding deliver
fin_work-deliver sent m h c0 c1 e = e
fin_work-deliver again m h c0 c1 e = fin_work-restore c1 m h ∙ e
fin_work-deliver message_error m h c0 c1 e = fin_work-restore c1 m h ∙ e
fin_work-deliver nexus_error m h c0 c1 e = fin_work-restore c1 m h ∙ e
fin_work-deliver no_task m h c0 c1 e = ground (arith, fin_work-restore c1 m h, e)

fin_work-hand_over : (c : Conn) (m : Msg) → (hand_over c m).1.fin_work ≡ c.fin_work
unfolding hand_over
fin_work-hand_over c m = fin_work-deliver _ m _ _ _ (fin_work-charge _ m)

fin_work-send : (c : Conn) (m : Msg) → (send c m).1.fin_work ≡ c.fin_work
unfolding send
fin_work-send c m = ground (arith, fin_work-hand_over c m)

fin_work-send_hello_rsp : (sn : ℕ) (c : Conn) → (send_hello_rsp sn c).fin_work ≡ c.fin_work
unfolding send_hello_rsp
fin_work-send_hello_rsp sn c = fin_work-send c (control_msg hello_rsp sn)

state-send_hello_rsp : (sn : ℕ) (c : Conn) → (send_hello_rsp sn c).state ≡ c.state
unfolding send_hello_rsp
state-send_hello_rsp sn c = ap (λ (v : View). v.state) (view-send c (control_msg hello_rsp sn))

-- A close is asked for and has not begun: nothing is to send the FIN that was not before.
abbrev pub Deferred : Conn → Conn → Type 0
Deferred c d = (d.state ≡ init) × (d.disconnecting ≡ true) × (d.fin_work ≡ c.fin_work)

on_hello_req_recv-Deferred :
    (o : Options) (sn : ℕ) (c : Conn) → Deferred c (on_hello_req_recv o true sn c)
unfolding on_hello_req_recv disconnect keepalive_start
on_hello_req_recv-Deferred o sn c = (
  state-send_hello_rsp sn _ ∙ ground arith,
  disconnecting-send_hello_rsp sn _ ∙ ground arith,
  fin_work-send_hello_rsp sn _ ∙ ground arith,
)

-- At the server, a close that the application asks for when it hears of the new connection is put
-- off while the hello's response is sent, whatever the nexus does with it: the connection stays in
-- INIT, and no work to send the FIN is added. The close begins when the response has been sent.
pub server_disconnect_kept :
    (o : Options) (sn : ℕ) (c : Conn)
    → let d = on_hello_req_recv o true sn c in Deferred c d × Closing (on_hello_rsp_send_comp d)
server_disconnect_kept o sn c =
    let d = on_hello_req_recv-Deferred o sn c in
    (d, completion_closes (on_hello_req_recv o true sn c) d.1)

view-on_hello_rsp_send_comp :
    (c : Conn)
    → c.disconnecting ≡ true
    → view (on_hello_rsp_send_comp c) ≡ record (view c) { state = online }
unfolding on_hello_rsp_send_comp disconnect
view-on_hello_rsp_send_comp c h = ground (arith, h)

view-disconnect : (c : Conn) → view (disconnect c) ≡ record (view c) { disconnecting = true }
unfolding disconnect
view-disconnect c = ground arith

-- A connection with the same flags is plain too.
same-Plain :
    (c c' : Conn) (s : State) (k t : ℕ) (d : Bool)
    → Plain c
    → view c' ≡ record (view c) { state = s; kref = k; fin_req_timeout = t; disconnecting = d }
    → Plain c'
same-Plain c c' s k t d p e = record {
  no_flow = ap (λ (v : View). v.enable_flow_control) e ∙ p.no_flow;
  timer = ap (λ (v : View). v.timer_ok) e ∙ p.timer;
  notifies = ap (λ (v : View). v.disable_notify) e ∙ p.notifies;
  alive = ap (λ (v : View). v.ka_timedout) e ∙ p.alive;
  unflushed = ap (λ (v : View). v.fin_request_flushed) e ∙ p.unflushed;
}

-- Where the completion of the hello's response comes after the close of an online connection has
-- begun, it starts the close again: the second FIN takes three references more, six in all, and
-- the state is FIN_WAIT_1 as after one close.
pub late_completion_closes_twice :
    (c : Conn)
    → Plain c
    → c.state ≡ online
    → c.disconnecting ≡ false
    → c.kref < 2 ^ 31
    → let d = pre_disconnect (on_hello_rsp_send_comp (pre_disconnect (disconnect c))) in
      (d.state ≡ fin_wait_1) × (d.kref ≡ c.kref + 6)
late_completion_closes_twice c p s n k =
    let c1 = disconnect c in
    let c2 = pre_disconnect c1 in
    let c3 = on_hello_rsp_send_comp c2 in
    let e1 = view-disconnect c in
    let p1 = same-Plain c c1 c.state c.kref c.fin_req_timeout true p e1 in
    let e2 = view-pre_disconnect c1 p1 (ap (λ (v : View). v.state) e1 ∙ s) in
    let p2 = same-Plain c1 c2 fin_wait_1 _ 0 c1.disconnecting p1 e2 in
    let d2 = ap (λ (v : View). v.disconnecting) e2 ∙ ap (λ (v : View). v.disconnecting) e1 in
    let e3 = view-on_hello_rsp_send_comp c2 d2 in
    let p3 = same-Plain c2 c3 online c2.kref c2.fin_req_timeout c2.disconnecting p2 e3 in
    let e4 = view-pre_disconnect c3 p3 (ap (λ (v : View). v.state) e3) in
    ground (arith, e1, e2, e3, e4)
