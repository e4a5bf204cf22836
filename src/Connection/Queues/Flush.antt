-- ===== src/Connection/Queues/Flush.antt =====
-- What the flush functions leave alone, and what they leave in the queues.
use mathlib.Core.List.{append_assoc}
use accelio.Prelude.{◌≡◌, refl, ◌∙◌, List, [], ◌∷◌, ◌++◌, arith}
use accelio.Message.{Msg}
use accelio.Connection.State.{Conn, Reason}
use accelio.Connection.Queues.{
  uncount, flush_reqs, flush_rsps, flush_msgs, give_back_req, req_msgs_flush, notify_req_msgs_flush,
  give_back_rsp, rsp_msgs_flush, notify_rsp_msgs_flush,
}

nexus-req_msgs_flush :
    (s : Reason) (ms : List Msg) (c : Conn) → (req_msgs_flush s ms c).nexus ≡ c.nexus
unfolding req_msgs_flush
nexus-req_msgs_flush s [] c = refl
nexus-req_msgs_flush s (m ∷ ms) c = nexus-req_msgs_flush s ms (give_back_req s m c) ∙ step
  where
    step : (give_back_req s m c).nexus ≡ c.nexus
    step = ground arith

nexus-rsp_msgs_flush :
    (s : Reason) (ms : List Msg) (c : Conn) → (rsp_msgs_flush s ms c).nexus ≡ c.nexus
unfolding rsp_msgs_flush
nexus-rsp_msgs_flush s [] c = refl
nexus-rsp_msgs_flush s (m ∷ ms) c = nexus-rsp_msgs_flush s ms (give_back_rsp s m c) ∙ step
  where
    step : (give_back_rsp s m c).nexus ≡ c.nexus
    step = ground arith

pub nexus-notify_req : (s : Reason) (c : Conn) → (notify_req_msgs_flush s c).nexus ≡ c.nexus
unfolding notify_req_msgs_flush
nexus-notify_req s c = nexus-req_msgs_flush s c.reqs_msgq c

pub nexus-notify_rsp : (s : Reason) (c : Conn) → (notify_rsp_msgs_flush s c).nexus ≡ c.nexus
unfolding notify_rsp_msgs_flush
nexus-notify_rsp s c = nexus-rsp_msgs_flush s c.rsps_msgq c

reqs-flush_reqs :
    (ms moved queued : List Msg) (c : Conn)
    → ((flush_reqs ms moved queued c).reqs_msgq ≡ moved ++ (ms ++ queued))
      × ((flush_reqs ms moved queued c).in_flight_reqs_msgq ≡ [])
      × ((flush_reqs ms moved queued c).rsps_msgq ≡ c.rsps_msgq)
      × ((flush_reqs ms moved queued c).in_flight_rsps_msgq ≡ c.in_flight_rsps_msgq)
unfolding flush_reqs
reqs-flush_reqs [] moved queued c = (refl, refl, refl, refl)
reqs-flush_reqs (m ∷ ms) moved queued c =
    let (a, b, d, e) = reqs-flush_reqs ms (moved ++ (m ∷ [])) queued (uncount c m) in
    (a ∙ append_assoc moved (m ∷ []) (ms ++ queued), b, d ∙ rsps, e ∙ flight)
  where
    rsps : (uncount c m).rsps_msgq ≡ c.rsps_msgq
    rsps = ground arith

    flight : (uncount c m).in_flight_rsps_msgq ≡ c.in_flight_rsps_msgq
    flight = ground arith

rsps-flush_rsps :
    (ms moved queued : List Msg) (c : Conn)
    → ((flush_rsps ms moved queued c).rsps_msgq ≡ moved ++ (ms ++ queued))
      × ((flush_rsps ms moved queued c).in_flight_rsps_msgq ≡ [])
      × ((flush_rsps ms moved queued c).reqs_msgq ≡ c.reqs_msgq)
      × ((flush_rsps ms moved queued c).in_flight_reqs_msgq ≡ c.in_flight_reqs_msgq)
unfolding flush_rsps
rsps-flush_rsps [] moved queued c = (refl, refl, refl, refl)
rsps-flush_rsps (m ∷ ms) moved queued c =
    let (a, b, d, e) = rsps-flush_rsps ms (moved ++ (m ∷ [])) queued c in
    (a ∙ append_assoc moved (m ∷ []) (ms ++ queued), b, d, e)

-- xio_connection_flush_msgs puts the requests (responses) in flight, in their order, before those
-- that wait, and leaves none in flight: no message is lost or doubled.
pub flush_msgs_queues :
    (c : Conn)
    → let c' = flush_msgs c in
      (c'.reqs_msgq ≡ c.in_flight_reqs_msgq ++ c.reqs_msgq)
      × (c'.rsps_msgq ≡ c.in_flight_rsps_msgq ++ c.rsps_msgq)
      × (c'.in_flight_reqs_msgq ≡ [])
      × (c'.in_flight_rsps_msgq ≡ [])
unfolding flush_msgs
flush_msgs_queues c =
    let c1 = flush_reqs c.in_flight_reqs_msgq [] c.reqs_msgq c in
    ground (
      arith,
      reqs-flush_reqs c.in_flight_reqs_msgq [] c.reqs_msgq c,
      rsps-flush_rsps c1.in_flight_rsps_msgq [] c1.rsps_msgq c1,
    )
