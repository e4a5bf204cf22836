-- ===== src/Connection/FlowTests.antt =====
-- Runs of the flow control at fixed inputs.
use accelio.Prelude.{◌+◌, ◌≤◌, true, false, ◌≡◌, refl, List, [], ◌∷◌, arith}
use accelio.Message.{Msg}
use accelio.Message.MsgType.{rdma, ack_req}
use accelio.Connection.State.{Conn, Answer, sent}
use accelio.Connection.Send.{send, hand_over, deliver, charge}
use accelio.Connection.Receive.Window.{Consecutive, arrive}
use accelio.Connection.Receive.Link.{
  Link, Run, Balanced, packet, send_a, arrive_b, begin, then_step, credits_conserved,
  queue_never_overrun,
}
use accelio.Connection.Tests.{opened, request}

-- An end whose peer has four places of a thousand bytes.
abbrev flow : List Answer → Conn
flow answers = record (opened answers) {
  enable_flow_control = true;
  peer_credits_msgs = 4;
  peer_credits_bytes = 1000;
  credits_msgs = 3;
  credits_bytes = 300;
}

abbrev rdma_msg : Msg
rdma_msg = record { type = rdma; sn = 1; tx_bytes = 100; receipt_only = false }

abbrev ack_msg : Msg
ack_msg = record { type = ack_req; sn = 0; tx_bytes = 0; receipt_only = false }

-- Two ends with four places each.
abbrev fresh : List Answer → Conn
fresh answers = record (flow answers) { credits_msgs = 0; credits_bytes = 0 }

abbrev link : Link
link = record { a = fresh (sent ∷ []); b = fresh []; ab = []; ba = []; held_a = 0; held_b = 0 }

link-Balanced : Balanced 4 4 link
link-Balanced = record {
  to_b = record { flow = refl; all = refl; in_order = refl; bound = omega arith };
  to_a = record { flow = refl; all = refl; in_order = refl; bound = omega arith };
}

abbrev sent_one : Link
sent_one = record link { a = (send link.a (request 1)).1; ab = packet link.a (request 1) ∷ [] }

abbrev arrived_one : Link
arrived_one = record sent_one { b = arrive (packet link.a (request 1)) link.b; ab = []; held_b = 1 }

to_arrived : Run link arrived_one
unfolding send hand_over deliver charge
to_arrived =
    then_step
      (then_step begin (
        send_a link (request 1)
          (record {
            flow = refl;
            request = refl;
            carries = refl;
            ack_place = λ e. refl;
            bound = omega arith;
          })
          refl))
      (arrive_b sent_one (packet link.a (request 1)) [] refl)

credits_conserved_example :
    (arrived_one.a.peer_credits_msgs + 0 + 1 + arrived_one.b.credits_msgs + 0 ≡ 4)
    × (arrived_one.b.peer_credits_msgs + 0 + 0 + arrived_one.a.credits_msgs + 0 ≡ 4)
credits_conserved_example = credits_conserved 4 4 link arrived_one link-Balanced to_arrived

queue_never_overrun_example :
    (1 ≤ 4)
    × (0 ≤ 4)
    × Consecutive arrived_one.b.req_exp_sn [] arrived_one.a.req_sn
    × Consecutive arrived_one.a.req_exp_sn [] arrived_one.b.req_sn
queue_never_overrun_example = queue_never_overrun 4 4 link arrived_one link-Balanced to_arrived
