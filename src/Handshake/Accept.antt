-- ===== src/Handshake/Accept.antt =====
-- The response that accepts a session: xio_session_write_accept_rsp against xio_read_setup_rsp.
pub mod Portals
use mathlib.Core.List.{append_assoc}
use accelio.Prelude.{
  u16, ℕ, zero, suc, ◌+◌, ◌-◌, ◌^◌, ◌≤◌, ◌<◌, ◌≡◌, refl, sym, ap, ◌∙◌, List, [], ◌∷◌, ◌++◌, length,
  take, drop, arith, length-append, subst, replicate, Option, some, none, true, false, Bool,
  if◌then◌else◌, ◌==◌, ltb,
}
use accelio.Wire.{Buffer, read_uint16, read_uint32, read_uint64, get_bytes}
use accelio.Wire.Integers.{bytes_16, bytes_32, bytes_64}
use accelio.Handshake.{
  At, setup_buffer_len, put16, put32, put64, put_array, Depths, put_portals, put_depths,
  put_accept_rsp, portals_len, accept_len, write_accept_rsp, SetupRsp, accepted, get_array,
  get_portals, read_accept, read_setup_rsp, action_accept,
}
use accelio.Handshake.Fields.{
  fill, put_array-fill, put16-array, put32-array, put64-array, read_uint16-append,
  read_uint32-append, read_uint64-append, get_bytes-append,
}
use accelio.Handshake.Request.{put_field, put_some, get_some, length-replicate}
use accelio.Handshake.Accept.Portals.{
  strings, length-strings, put_portals-fill, get_portals-append, length_le,
}

-- The fields of a session are within their types, and the message fits its buffer.
pub record AcceptRange (s : Depths) (portals : List Buffer) (context : Buffer) : Type 0 where
  pub id : s.session_id < 2 ^ 32
  pub snd_bytes : s.snd_queue_depth_bytes < 2 ^ 64
  pub rcv_bytes : s.rcv_queue_depth_bytes < 2 ^ 64
  pub snd_msgs : s.snd_queue_depth_msgs < 2 ^ 16
  pub rcv_msgs : s.rcv_queue_depth_msgs < 2 ^ 16
  pub fits : 30 + portals_len portals + length context ≤ setup_buffer_len

abbrev pub accept_fixed : Depths → List Buffer → Buffer → Buffer
accept_fixed s portals context =
    bytes_32 s.session_id
    ++ (bytes_16 action_accept
        ++ (bytes_64 s.snd_queue_depth_bytes
            ++ (bytes_64 s.rcv_queue_depth_bytes
                ++ (bytes_16 s.snd_queue_depth_msgs
                    ++ (bytes_16 s.rcv_queue_depth_msgs
                        ++ (bytes_16 (length portals) ++ bytes_16 (length context)))))))

abbrev pub accept_message : Depths → List Buffer → Buffer → Buffer
accept_message s portals context = (accept_fixed s portals context ++ strings portals) ++ context

put_accept_rsp-fill :
    (s : Depths) (portals : List Buffer) (context blank : Buffer)
    → AcceptRange s portals context
    → length blank ≡ setup_buffer_len
    → put_accept_rsp action_accept s portals context (fill [] blank)
      ≡ fill (accept_message s portals context) blank
unfolding put_accept_rsp put_depths
put_accept_rsp-fill s portals context blank r h =
    let p1 = bytes_32 s.session_id in
    let p2 = p1 ++ bytes_16 action_accept in
    let p3 = p2 ++ bytes_64 s.snd_queue_depth_bytes in
    let p4 = p3 ++ bytes_64 s.rcv_queue_depth_bytes in
    let p5 = p4 ++ bytes_16 s.snd_queue_depth_msgs in
    let p6 = p5 ++ bytes_16 s.rcv_queue_depth_msgs in
    let p7 = p6 ++ bytes_16 (length portals) in
    let p8 = accept_fixed s portals context in
    rw
      (
        put_field (put32 s.session_id) p1 [] blank (put32-array s.session_id) (omega (arith, h)),
        put_field (put16 action_accept) (bytes_16 action_accept) p1 blank
            (put16-array action_accept) (omega (arith, h)),
        put_field (put64 s.snd_queue_depth_bytes) (bytes_64 s.snd_queue_depth_bytes) p2 blank
            (put64-array s.snd_queue_depth_bytes) (omega (arith, h)),
        put_field (put64 s.rcv_queue_depth_bytes) (bytes_64 s.rcv_queue_depth_bytes) p3 blank
            (put64-array s.rcv_queue_depth_bytes) (omega (arith, h)),
        put_field (put16 s.snd_queue_depth_msgs) (bytes_16 s.snd_queue_depth_msgs) p4 blank
            (put16-array s.snd_queue_depth_msgs) (omega (arith, h)),
        put_field (put16 s.rcv_queue_depth_msgs) (bytes_16 s.rcv_queue_depth_msgs) p5 blank
            (put16-array s.rcv_queue_depth_msgs) (omega (arith, h)),
        put_field (put16 (length portals)) (bytes_16 (length portals)) p6 blank
            (put16-array (length portals)) (omega (arith, h)),
        put_field (put16 (length context)) (bytes_16 (length context)) p7 blank
            (put16-array (length context)) (omega (arith, h)),
        put_portals-fill portals p8 blank (omega (arith, r.fits)) (omega (arith, h, r.fits)),
        put_some context (p8 ++ strings portals) blank
            (omega (arith, h, r.fits, length-append p8 (strings portals), length-strings portals)),
      )
      refl

accept_fields :
    (s : Depths) (portals : List Buffer) (context b : Buffer) (q : ℕ)
    → read_uint32 0 b ≡ (s.session_id, 4)
    → read_uint16 4 b ≡ (action_accept, 2)
    → read_uint64 6 b ≡ (s.snd_queue_depth_bytes, 8)
    → read_uint64 14 b ≡ (s.rcv_queue_depth_bytes, 8)
    → read_uint16 22 b ≡ (s.snd_queue_depth_msgs, 2)
    → read_uint16 24 b ≡ (s.rcv_queue_depth_msgs, 2)
    → read_uint16 26 b ≡ (length portals, 2)
    → read_uint16 28 b ≡ (length context, 2)
    → get_portals (length portals) 30 b ≡ (portals, 30 + portals_len portals)
    → get_array (length context) (30 + portals_len portals) b ≡ (context, q)
    → read_setup_rsp b ≡ accepted s portals context
unfolding read_setup_rsp read_accept
accept_fields s portals context b q e1 e2 e3 e4 e5 e6 e7 e8 e9 e10 =
    rw (e1, e2, e3, e4, e5, e6, e7, e8, e9, e10) refl

read-accept_message :
    (s : Depths) (portals : List Buffer) (context post : Buffer)
    → AcceptRange s portals context
    → read_setup_rsp (accept_message s portals context ++ post) ≡ accepted s portals context
read-accept_message s portals context post r = rw assoc (
    accept_fields s portals context b (30 + portals_len portals + length context)
      (read_uint32-append s.session_id [] _ r.id)
      (read_uint16-append action_accept p1 _ (omega arith))
      (read_uint64-append s.snd_queue_depth_bytes p2 _ r.snd_bytes)
      (read_uint64-append s.rcv_queue_depth_bytes p3 _ r.rcv_bytes)
      (read_uint16-append s.snd_queue_depth_msgs p4 _ r.snd_msgs)
      (read_uint16-append s.rcv_queue_depth_msgs p5 _ r.rcv_msgs)
      (read_uint16-append (length portals) p6 _ (omega (arith, r.fits, length_le portals)))
      (read_uint16-append (length context) p7 _ (omega (arith, r.fits)))
      (get_portals-append portals p8 (context ++ post) (omega (arith, r.fits))) last)
  where
    p1 : Buffer
    p1 = bytes_32 s.session_id

    p2 : Buffer
    p2 = p1 ++ bytes_16 action_accept

    p3 : Buffer
    p3 = p2 ++ bytes_64 s.snd_queue_depth_bytes

    p4 : Buffer
    p4 = p3 ++ bytes_64 s.rcv_queue_depth_bytes

    p5 : Buffer
    p5 = p4 ++ bytes_16 s.snd_queue_depth_msgs

    p6 : Buffer
    p6 = p5 ++ bytes_16 s.rcv_queue_depth_msgs

    p7 : Buffer
    p7 = p6 ++ bytes_16 (length portals)

    p8 : Buffer
    p8 = accept_fixed s portals context

    b : Buffer
    b = p8 ++ (strings portals ++ (context ++ post))

    assoc : accept_message s portals context ++ post ≡ b
    assoc =
        append_assoc (p8 ++ strings portals) context post
        ∙ append_assoc p8 (strings portals) (context ++ post)

    place : length (p8 ++ strings portals) ≡ 30 + portals_len portals
    place = length-append p8 (strings portals) ∙ ap (λ n. 30 + n) (length-strings portals)

    last :
        get_array (length context) (30 + portals_len portals) b
        ≡ (context, 30 + portals_len portals + length context)
    last =
        subst (λ n. get_array (length context) n b ≡ (context, n + length context)) place
          (subst
            (λ l.
              get_array (length context) (length (p8 ++ strings portals)) l
              ≡ (context, length (p8 ++ strings portals) + length context))
            (append_assoc p8 (strings portals) (context ++ post))
            (get_some context (p8 ++ strings portals) post))

length-accept_message :
    (s : Depths) (portals : List Buffer) (context : Buffer)
    → length (accept_message s portals context) ≡ 30 + portals_len portals + length context
length-accept_message s portals context =
    length-append (accept_fixed s portals context ++ strings portals) context
    ∙ ap (λ n. n + length context)
        (length-append (accept_fixed s portals context) (strings portals)
          ∙ ap (λ n. 30 + n) (length-strings portals))

write_accept-some :
    (s : Depths) (portals : List Buffer) (context : Buffer)
    → 30 + portals_len portals + length context ≤ setup_buffer_len
    → write_accept_rsp true action_accept s portals context
      ≡ some (put_accept_rsp action_accept s portals context (0, replicate setup_buffer_len 0))
unfolding write_accept_rsp
write_accept-some s portals context h =
    ap
      (λ t.
        if t
        then none
        else some
            (put_accept_rsp action_accept s portals context (0, replicate setup_buffer_len 0)))
      (test (accept_len portals context) (omega (arith, h)))
  where
    test : (n : ℕ) → n ≤ setup_buffer_len → ltb setup_buffer_len n ≡ false
    test n k = ground (arith, k)

-- A response that accepts a session, with fields within their types and a length within the buffer,
-- is written, if there is memory, as a message of the length that was computed before; the client
-- reads from it the session's number, the queue depths, the portals in their order, and the private
-- data.
pub read-write_accept_rsp :
    (s : Depths) (portals : List Buffer) (context : Buffer)
    → AcceptRange s portals context
    → (a : At) × (write_accept_rsp true action_accept s portals context ≡ some a)
      × (a.0 ≡ accept_len portals context)
      × (read_setup_rsp a.1 ≡ accepted s portals context)
read-write_accept_rsp s portals context r =
    let blank : Buffer = replicate setup_buffer_len 0 in
    let e = put_accept_rsp-fill s portals context blank r (length-replicate setup_buffer_len) in
    let m = accept_message s portals context in
    (
      fill m blank,
      write_accept-some s portals context r.fits ∙ ap some e,
      omega (arith, length-accept_message s portals context, r.fits),
      read-accept_message s portals context (drop (length m) blank) r,
    )
