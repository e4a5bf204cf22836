-- ===== src/Connection/Close/Sequence.antt =====
-- What happens at one end keeps the order in which things happen.
use accelio.Prelude.{true, false, ◌&&◌, not, ◌≡◌, arith}
use accelio.Connection.Close.Endpoint.{Ghost, Order, fin_sent}

-- What the order says, in one product.
facts :
    (g : Ghost)
    → Order g
    → ((g.active && g.passive) ≡ false)
      × (g.passive ≡ true → g.ack_completed ≡ true)
      × (g.ack_completed ≡ true → (g.fin_received ≡ true) × (fin_sent g ≡ true))
      × (g.fin_completed ≡ true → fin_sent g ≡ true)
      × (g.acked ≡ true → fin_sent g ≡ true)
      × (g.expired ≡ true → (g.active ≡ true) × (g.acked ≡ true) × (g.ack_completed ≡ true))
facts g o = (
  o.one_close, o.passive_after, o.completed_after, o.fin_completed_after, o.acked_after,
  o.expired_after,
)

-- One lemma for each thing that can happen.
pub Order-close_local :
    (g : Ghost) → Order g → fin_sent g ≡ false → Order (record g { active = true })
Order-close_local g o h0 = record {
  one_close = ground (arith, facts g o);
  passive_after = ground (arith, facts g o);
  completed_after = ground (arith, facts g o);
  fin_completed_after = ground (arith, facts g o);
  acked_after = ground (arith, facts g o);
  expired_after = ground (arith, facts g o);
}

pub Order-fin_sent_comp :
    (g : Ghost) → Order g → fin_sent g ≡ true → Order (record g { fin_completed = true })
Order-fin_sent_comp g o h0 = record {
  one_close = ground (arith, facts g o);
  passive_after = ground (arith, facts g o);
  completed_after = ground (arith, facts g o);
  fin_completed_after = ground (arith, facts g o);
  acked_after = ground (arith, facts g o);
  expired_after = ground (arith, facts g o);
}

pub Order-peer_fin :
    (g : Ghost) → Order g → g.fin_received ≡ false → Order (record g { fin_received = true })
Order-peer_fin g o h0 = record {
  one_close = ground (arith, facts g o);
  passive_after = ground (arith, facts g o);
  completed_after = ground (arith, facts g o);
  fin_completed_after = ground (arith, facts g o);
  acked_after = ground (arith, facts g o);
  expired_after = ground (arith, facts g o);
}

pub Order-ack_sent_comp :
    (g : Ghost)
    → Order g
    → g.fin_received ≡ true
    → g.ack_completed ≡ false
    → Order (record g { ack_completed = true; passive = not g.active })
Order-ack_sent_comp g o h0 h1 = record {
  one_close = ground (arith, facts g o);
  passive_after = ground (arith, facts g o);
  completed_after = ground (arith, facts g o);
  fin_completed_after = ground (arith, facts g o);
  acked_after = ground (arith, facts g o);
  expired_after = ground (arith, facts g o);
}

pub Order-peer_ack : (g : Ghost) → Order g → fin_sent g ≡ true → Order (record g { acked = true })
Order-peer_ack g o h0 = record {
  one_close = ground (arith, facts g o);
  passive_after = ground (arith, facts g o);
  completed_after = ground (arith, facts g o);
  fin_completed_after = ground (arith, facts g o);
  acked_after = ground (arith, facts g o);
  expired_after = ground (arith, facts g o);
}

pub Order-time_wait_over :
    (g : Ghost)
    → Order g
    → (g.active && g.acked && g.ack_completed && not g.expired) ≡ true
    → Order (record g { expired = true })
Order-time_wait_over g o h0 = record {
  one_close = ground (arith, facts g o);
  passive_after = ground (arith, facts g o);
  completed_after = ground (arith, facts g o);
  fin_completed_after = ground (arith, facts g o);
  acked_after = ground (arith, facts g o);
  expired_after = ground (arith, facts g o);
}
