-- ===== src/Nexus/Setup/Response.antt =====
-- What a response to the setup makes of the nexus.
use accelio.Prelude.{
  ℕ, ◌≡◌, refl, ap, ◌∙◌, Bool, true, false, ◌∷◌, if◌then◌else◌, ◌==◌, arith, Bool-cases, inl, inr,
}
use accelio.Nexus.{Nexus, State, Event, Answers, is, notify, state_set, cancel_dwork}
use accelio.Nexus.Queue.{put_sender}
use accelio.Nexus.Reconnect.{prep_new_transport}
use accelio.Nexus.Reconnect.Backoff.{Kept, Kept-trans, put_task-Kept, put_sender-Kept}
use accelio.Nexus.Setup.{
  SetupRsp, xio_version, recycle, killed, has_cid, on_status, on_accepted, on_recv_setup_rsp,
}

recycle-Kept : (n : Nexus) (t : ℕ) → Kept n (recycle n t)
unfolding recycle
recycle-Kept n t =
    let s = (n.pool.task t).sender_task in
    Kept-trans (put_task-Kept (put_sender n t s) t) (put_sender-Kept n t s)

-- What may come of a response: the nexus is connected, and its observers are told so; it is
-- disconnected, and they are told; a connection that failed is told to them; or the response is
-- refused, and neither the state nor what they know changes.
pub data Outcome (n m : Nexus) (rsp : SetupRsp) : Bool → Type 0 where
  connects :
      rsp.status ≡ 0
      → rsp.version ≡ xio_version
      → m.state ≡ State.connected
      → m.events
        ≡ (if is n.state State.reconnect then Event.reconnected else Event.established) ∷ n.events
      → m.server_cid ≡ (if is n.state State.reconnect then n.server_cid else rsp.cid)
      → Outcome n m rsp true
  disconnects :
      (rsp.status == 0) ≡ false
      → has_cid rsp.flags ≡ true
      → m.state ≡ State.disconnected
      → m.events ≡ Event.disconnected ∷ n.events
      → Outcome n m rsp true
  fails :
      (rsp.status == 0) ≡ false
      → has_cid rsp.flags ≡ false
      → m.state ≡ n.state
      → m.events ≡ Event.error ∷ n.events
      → Outcome n m rsp true
  refuses : m.state ≡ n.state → m.events ≡ n.events → Outcome n m rsp false

-- A transport that is prepared leaves the state and the events alone.
prep-Kept :
    (n : Nexus) (ans : Answers)
    → let m = (prep_new_transport n ans).1 in
      (m.state ≡ n.state) × (m.events ≡ n.events) × (m.server_cid ≡ n.server_cid)
unfolding prep_new_transport
prep-Kept n ans = (ground arith, ground arith, ground arith)

on_status-Outcome :
    (n : Nexus) (t : ℕ) (rsp : SetupRsp) (ans : Answers)
    → (rsp.status == 0) ≡ false
    → let r = on_status n t rsp.flags ans in Outcome n r.1 rsp r.0
unfolding on_status killed
on_status-Outcome n t rsp ans z = elim (Bool-cases (has_cid rsp.flags)) [
  | inr c ↦ let k = recycle-Kept (notify Event.error n) t in rw c (fails z c k.state k.events)
  | inl c ↦ elim (Bool-cases (is n.state State.reconnect)) [
    | inr r ↦
        let k =
          recycle-Kept (notify Event.disconnected (state_set State.disconnected (cancel_dwork n)))
            t in
        rw (c, r) (disconnects z c k.state k.events)
    | inl r ↦
        let p = prep_new_transport (cancel_dwork n) ans in
        let (s, e, v) = prep-Kept (cancel_dwork n) ans in
        let k = recycle-Kept (notify Event.disconnected (state_set State.disconnected p.1)) t in
        elim (Bool-cases p.0) [
          | inl d ↦
              rw (c, r, d) (disconnects z c k.state (k.events ∙ ap (λ l. Event.disconnected ∷ l) e))
          | inr d ↦ rw (c, r, d) (refuses s e)
        ]
  ]
]

on_accepted-Outcome :
    (n m : Nexus) (rsp : SetupRsp) (created : Bool) (ans : Answers)
    → Kept n m
    → rsp.status ≡ 0
    → rsp.version ≡ xio_version
    → let r = on_accepted m rsp.cid created ans in Outcome n r.1 rsp r.0
unfolding on_accepted
on_accepted-Outcome n m rsp created ans k z v =
    let q : is m.state State.reconnect ≡ is n.state State.reconnect =
      ap (λ s. is s State.reconnect) k.state in
    elim (Bool-cases (is m.state State.reconnect)) [
      | inr r ↦ elim (Bool-cases m.srq_enabled) [
        | inl q1 ↦
            rw (r, q1) (connects z v refl (ground (arith, r, q, k.events)) (ground (arith, r, q)))
        | inr q1 ↦ elim (Bool-cases created) [
          | inl q2 ↦
              rw (r, q1, q2)
                (connects z v refl (ground (arith, r, q, k.events)) (ground (arith, r, q)))
          | inr q2 ↦ rw (r, q1, q2) (refuses k.state k.events)
        ]
      ]
      | inl r ↦
          let p = prep_new_transport (cancel_dwork m) ans in
          let (s, e, c) = prep-Kept (cancel_dwork m) ans in
          elim (Bool-cases p.0) [
            | inl d ↦
                rw (r, d)
                  (connects z v refl (ground (arith, r, q, e, k.events))
                    (ground (arith, r, q, c, k.server)))
            | inr d ↦ rw (r, d) (refuses (s ∙ k.state) (e ∙ k.events))
          ]
    ]

-- A response to the setup connects the nexus, and tells its observers that it is established or, if
-- it was reconnecting, that it is reconnected: only if it has the status 0 and this version. With a
-- status, the nexus is disconnected if the server did not know it, and otherwise the observers learn
-- of an error. If -1 is returned, neither the state nor what they know has changed.
pub setup_rsp-Outcome :
    (n : Nexus) (t : ℕ) (rsp : SetupRsp) (created : Bool) (ans : Answers)
    → let r = on_recv_setup_rsp n t rsp created ans in Outcome n r.1 rsp r.0
unfolding on_recv_setup_rsp
setup_rsp-Outcome n t rsp created ans = elim (Bool-cases (rsp.status == 0)) [
  | inr z ↦ rw z (on_status-Outcome n t rsp ans z)
  | inl z ↦ elim (Bool-cases (rsp.version == xio_version)) [
    | inr v ↦ rw (z, v) (refuses refl refl)
    | inl v ↦
        rw (z, v)
          (on_accepted-Outcome n (recycle n t) rsp created ans (recycle-Kept n t)
            (ground (arith, z)) (ground (arith, v)))
  ]
]
