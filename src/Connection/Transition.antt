-- ===== src/Connection/Transition.antt =====
-- The table of the close protocol, xio_connection.c and xio_connection.h.
use accelio.Prelude.{Bool, true, false}
use accelio.Connection.State.{
  State, online, fin_wait_1, fin_wait_2, closing, time_wait, close_wait, last_ack, closed, invalid,
}

-- `struct xio_transition`; SEND_ACK is the only flag that a row has.
pub record Transition : Type 0 where
  pub valid : Bool
  pub next_state : State
  pub send_ack : Bool

abbrev no_transition : Transition
no_transition = record { valid = false; next_state = invalid; send_ack = false }

-- The column of the table: 0 for a FIN, 1 for the acknowledgment of ours.
pub data FinAck : Type 0 where
  fin ack : FinAck

-- xio_connection_next_transit over xio_transition_table
unfoldable pub next_transit : State → FinAck → Transition
next_transit online fin = record { valid = true; next_state = close_wait; send_ack = true }
next_transit fin_wait_1 fin = record { valid = true; next_state = closing; send_ack = true }
next_transit fin_wait_1 ack = record { valid = true; next_state = fin_wait_2; send_ack = false }
next_transit fin_wait_2 fin = record { valid = true; next_state = time_wait; send_ack = true }
next_transit closing ack = record { valid = true; next_state = time_wait; send_ack = false }
next_transit last_ack ack = record { valid = true; next_state = closed; send_ack = false }
next_transit _ _ = no_transition
