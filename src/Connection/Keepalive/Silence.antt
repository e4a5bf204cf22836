-- ===== src/Connection/Keepalive/Silence.antt =====
-- How long a silent peer is waited for.
use accelio.Prelude.{ℕ, zero, suc, ◌+◌, ◌<◌, ◌≤◌, ◌^◌, true, false, ◌≡◌, refl, ◌∷◌, arith}
use accelio.Connection.State.{Conn, online, timeout, connection_error}
use accelio.Connection.Close.{disconnect}
use accelio.Connection.Keepalive.{Options, keepalive_intvl}

-- The interval's timer fires `n` times.
abbrev pub intervals : Options → ℕ → Conn → Conn
intervals o zero c = c
intervals o (suc n) c = keepalive_intvl o (intervals o n c)

-- The connection after `n` intervals, as long as the probes have not run out.
pub record Waiting (n : ℕ) (c c' : Conn) : Type 0 where
  pub probes : c'.ka_probes ≡ n
  pub log : c'.log ≡ c.log
  pub state : c'.state ≡ c.state
  pub disconnecting : c'.disconnecting ≡ c.disconnecting
  pub timer_ok : c'.timer_ok ≡ c.timer_ok
  pub fin_work : c'.fin_work ≡ c.fin_work

keepalive_intvl-Waiting :
    (o : Options) (n : ℕ) (c c' : Conn)
    → Waiting n c c'
    → n + 1 < o.probes
    → o.probes < 2 ^ 31
    → Waiting (suc n) c (keepalive_intvl o c')
unfolding keepalive_intvl
keepalive_intvl-Waiting o n c c' w h b = record {
  probes = ground (arith, w.probes);
  log = ground (arith, w.probes, w.log);
  state = ground (arith, w.probes, w.state);
  disconnecting = ground (arith, w.probes, w.disconnecting);
  timer_ok = ground (arith, w.probes, w.timer_ok);
  fin_work = ground (arith, w.probes, w.fin_work);
}

intervals-Waiting :
    (o : Options) (n : ℕ) (c : Conn)
    → c.ka_probes ≡ 0
    → n < o.probes
    → o.probes < 2 ^ 31
    → Waiting n c (intervals o n c)
intervals-Waiting o zero c z h b = record {
  probes = z;
  log = refl;
  state = refl;
  disconnecting = refl;
  timer_ok = refl;
  fin_work = refl;
}
intervals-Waiting o (suc n) c z h b =
    keepalive_intvl-Waiting o n c (intervals o n c) (intervals-Waiting o n c z (omega arith) b)
      (omega arith) b

-- The last interval.
last_interval :
    (o : Options) (n : ℕ) (c c' : Conn)
    → Waiting n c c'
    → o.probes ≡ n + 1
    → o.probes < 2 ^ 31
    → c.timer_ok ≡ true
    → c.state ≡ online
    → c.disconnecting ≡ false
    → o.reconnect ≡ false
    → let d = keepalive_intvl o c' in
      (d.log ≡ connection_error timeout ∷ c.log)
      × (d.fin_work ≡ true)
      × (d.disconnecting ≡ true)
      × (d.ka_timedout ≡ true)
      × (d.ka_probes ≡ 0)
unfolding keepalive_intvl disconnect
last_interval o n c c' w p b t s d r =
    ground (arith, w.probes, w.log, w.state, w.disconnecting, w.timer_ok)

-- An online connection of which `probes` is the option and no probe is counted: while fewer intervals
-- than that have passed in silence, each is counted, the application hears nothing and no close
-- starts. The last one tells the application of the timeout once and starts the close, where
-- timers are taken, no close has begun and the application does not reconnect.
pub silent_peer_closed :
    (o : Options) (n k : ℕ) (c : Conn)
    → c.ka_probes ≡ 0
    → o.probes ≡ n + 1
    → o.probes < 2 ^ 31
    → k ≤ n
    → c.timer_ok ≡ true
    → c.state ≡ online
    → c.disconnecting ≡ false
    → o.reconnect ≡ false
    → let early = intervals o k c in
      let late = intervals o (suc n) c in
      (early.ka_probes ≡ k)
      × (early.log ≡ c.log)
      × (early.fin_work ≡ c.fin_work)
      × (late.log ≡ connection_error timeout ∷ c.log)
      × (late.fin_work ≡ true)
      × (late.ka_timedout ≡ true)
      × (late.ka_probes ≡ 0)
silent_peer_closed o n k c z p b h t s d r =
    let early = intervals-Waiting o k c z (omega arith) b in
    let before = intervals-Waiting o n c z (omega arith) b in
    let (l, f, g, m, q) = last_interval o n c (intervals o n c) before p b t s d r in
    (early.probes, early.log, early.fin_work, l, f, m, q)
