-- ===== src/Connection/SetupTests.antt =====
-- Runs of the setup and the keepalive at fixed inputs.
use accelio.Prelude.{true, false, ◌≡◌, refl, [], ◌∷◌, arith}
use accelio.Connection.State.{Conn, init, sent, timeout, connection_error}
use accelio.Connection.Keepalive.{Options}
use accelio.Connection.Keepalive.Silence.{intervals, silent_peer_closed}
use accelio.Connection.Setup.{on_hello_req_recv, on_hello_rsp_send_comp}
use accelio.Connection.Setup.Deferred.{Closing, Deferred, server_disconnect_kept}
use accelio.Connection.Tests.{opened}

abbrev options : Options
options = record { enable_keepalive = true; probes = 3; reconnect = false }

abbrev peer : Conn
peer = opened (sent ∷ sent ∷ sent ∷ [])

abbrev starting : Conn
starting = record peer { state = init; disable_notify = true }

silent_peer_closed_example :
    let early = intervals options 2 peer in
    let late = intervals options 3 peer in
    (early.ka_probes ≡ 2)
    × (early.log ≡ [])
    × (early.fin_work ≡ false)
    × (late.log ≡ connection_error timeout ∷ [])
    × (late.fin_work ≡ true)
    × (late.ka_timedout ≡ true)
    × (late.ka_probes ≡ 0)
silent_peer_closed_example =
    silent_peer_closed options 2 2 peer refl refl (omega arith) (omega arith) refl refl refl refl

server_disconnect_kept_example :
    let d = on_hello_req_recv options true 7 starting in
    Deferred starting d × Closing (on_hello_rsp_send_comp d)
server_disconnect_kept_example = server_disconnect_kept options 7 starting
