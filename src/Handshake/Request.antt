-- ===== src/Handshake/Request.antt =====
-- The setup request: xio_session_write_setup_req against xio_on_setup_req_recv.
use mathlib.Core.List.{append_assoc}
use accelio.Prelude.{
  u16, ℕ, zero, suc, ◌+◌, ◌^◌, ◌≤◌, ◌<◌, ◌≡◌, refl, sym, ap, ◌∙◌, [], ◌∷◌, ◌++◌, length, drop,
  arith, length-append, subst, replicate, some, none, true, false, if◌then◌else◌, ◌==◌,
}
use accelio.Wire.{
  Buffer, read_uint16, read_uint32, read_uint64, get_bytes, write_uint16, write_uint32,
  write_uint64,
}
use accelio.Wire.Integers.{bytes_16, bytes_32, bytes_64}
use accelio.Handshake.{
  At, setup_buffer_len, put16, put32, put64, put_array, SetupReq, put_setup_req, check_len,
  write_setup_req, get_array, read_setup_req,
}
use accelio.Handshake.Fields.{
  fill, put_array-fill, put16-array, put32-array, put64-array, read_uint16-append,
  read_uint32-append, read_uint64-append, get_bytes-append,
}

-- The fields of a session are within their types.
pub record SetupRange (s : SetupReq) : Type 0 where
  pub id : s.session_id < 2 ^ 32
  pub snd_bytes : s.snd_queue_depth_bytes < 2 ^ 64
  pub rcv_bytes : s.rcv_queue_depth_bytes < 2 ^ 64
  pub snd_msgs : s.snd_queue_depth_msgs < 2 ^ 16
  pub rcv_msgs : s.rcv_queue_depth_msgs < 2 ^ 16
  pub fits : 28 + length s.uri + length s.private_data ≤ setup_buffer_len

-- The fixed part, and the whole message.
abbrev pub fixed : SetupReq → Buffer
fixed s =
    bytes_32 s.session_id
    ++ (bytes_64 s.snd_queue_depth_bytes
        ++ (bytes_64 s.rcv_queue_depth_bytes
            ++ (bytes_16 s.snd_queue_depth_msgs
                ++ (bytes_16 s.rcv_queue_depth_msgs
                    ++ (bytes_16 (length s.uri) ++ bytes_16 (length s.private_data))))))

abbrev pub message : SetupReq → Buffer
message s = (fixed s ++ s.uri) ++ s.private_data

-- A length is written as it is.
short : (n : ℕ) → n < 2 ^ 16 → u16 n ≡ n
short n h = omega arith

pub put_field :
    (put : At → At) (xs pre blank : Buffer)
    → ((a : At) → put a ≡ put_array xs a)
    → length pre + length xs ≤ length blank
    → put (fill pre blank) ≡ fill (pre ++ xs) blank
put_field put xs pre blank e h = e (fill pre blank) ∙ put_array-fill xs pre blank h

-- An array that is written only if it is not empty.
pub put_some :
    (xs pre blank : Buffer)
    → length pre + length xs ≤ length blank
    → (if length xs == 0 then fill pre blank else put_array xs (fill pre blank))
      ≡ fill (pre ++ xs) blank
put_some [] pre blank h = ap (λ l. fill l blank) (sym (append_nil pre))
  where
    append_nil : (l : Buffer) → l ++ [] ≡ l
    append_nil [] = refl
    append_nil (x ∷ l) = ap (λ r. x ∷ r) (append_nil l)
put_some (x ∷ xs) pre blank h =
    ap (λ b. if b then fill pre blank else put_array (x ∷ xs) (fill pre blank)) (suc_ne (length xs))
    ∙ put_array-fill (x ∷ xs) pre blank h
  where
    suc_ne : (n : ℕ) → (suc n == 0) ≡ false
    suc_ne n = ground arith

put_setup_req-fill :
    (s : SetupReq) (blank : Buffer)
    → SetupRange s
    → length blank ≡ setup_buffer_len
    → put_setup_req s (fill [] blank) ≡ fill (message s) blank
unfolding put_setup_req
put_setup_req-fill s blank r h =
    let p1 = bytes_32 s.session_id in
    let p2 = p1 ++ bytes_64 s.snd_queue_depth_bytes in
    let p3 = p2 ++ bytes_64 s.rcv_queue_depth_bytes in
    let p4 = p3 ++ bytes_16 s.snd_queue_depth_msgs in
    let p5 = p4 ++ bytes_16 s.rcv_queue_depth_msgs in
    let p6 = p5 ++ bytes_16 (length s.uri) in
    rw
      (
        short s.snd_queue_depth_msgs r.snd_msgs,
        short s.rcv_queue_depth_msgs r.rcv_msgs,
        short (length s.uri) (omega (arith, r.fits)),
        short (length s.private_data) (omega (arith, r.fits)),
        put_field (put32 s.session_id) p1 [] blank (put32-array s.session_id) (omega (arith, h)),
        put_field (put64 s.snd_queue_depth_bytes) (bytes_64 s.snd_queue_depth_bytes) p1 blank
            (put64-array s.snd_queue_depth_bytes) (omega (arith, h)),
        put_field (put64 s.rcv_queue_depth_bytes) (bytes_64 s.rcv_queue_depth_bytes) p2 blank
            (put64-array s.rcv_queue_depth_bytes) (omega (arith, h)),
        put_field (put16 s.snd_queue_depth_msgs) (bytes_16 s.snd_queue_depth_msgs) p3 blank
            (put16-array s.snd_queue_depth_msgs) (omega (arith, h)),
        put_field (put16 s.rcv_queue_depth_msgs) (bytes_16 s.rcv_queue_depth_msgs) p4 blank
            (put16-array s.rcv_queue_depth_msgs) (omega (arith, h)),
        put_field (put16 (length s.uri)) (bytes_16 (length s.uri)) p5 blank
            (put16-array (length s.uri)) (omega (arith, h)),
        put_field (put16 (length s.private_data)) (bytes_16 (length s.private_data)) p6 blank
            (put16-array (length s.private_data)) (omega (arith, h)),
        put_some s.uri (fixed s) blank (omega (arith, h, r.fits)),
        put_some s.private_data (fixed s ++ s.uri) blank
            (omega (arith, h, r.fits, length-append (fixed s) s.uri)),
      )
      refl

pub get_some :
    (xs pre post : Buffer)
    → get_array (length xs) (length pre) (pre ++ (xs ++ post)) ≡ (xs, length pre + length xs)
unfolding get_array
get_some [] pre post = ap (λ n. ([], n)) (omega arith)
get_some (x ∷ xs) pre post =
    ap
      (λ b. if b then ([], length pre) else (
        get_bytes (length (x ∷ xs)) (length pre) (pre ++ (x ∷ xs ++ post)),
        length pre + length (x ∷ xs),
      ))
      (suc_ne (length xs))
    ∙ ap (λ l. (l, length pre + length (x ∷ xs))) (get_bytes-append (x ∷ xs) pre post)
  where
    suc_ne : (n : ℕ) → (suc n == 0) ≡ false
    suc_ne n = ground arith

-- The fields of a buffer, read one by one.
read_fields :
    (s : SetupReq) (b : Buffer) (q : ℕ)
    → read_uint32 0 b ≡ (s.session_id, 4)
    → read_uint64 4 b ≡ (s.snd_queue_depth_bytes, 8)
    → read_uint64 12 b ≡ (s.rcv_queue_depth_bytes, 8)
    → read_uint16 20 b ≡ (s.snd_queue_depth_msgs, 2)
    → read_uint16 22 b ≡ (s.rcv_queue_depth_msgs, 2)
    → read_uint16 24 b ≡ (length s.uri, 2)
    → read_uint16 26 b ≡ (length s.private_data, 2)
    → get_array (length s.uri) 28 b ≡ (s.uri, 28 + length s.uri)
    → get_array (length s.private_data) (28 + length s.uri) b ≡ (s.private_data, q)
    → read_setup_req b ≡ s
unfolding read_setup_req
read_fields s b q e1 e2 e3 e4 e5 e6 e7 e8 e9 = rw (e1, e2, e3, e4, e5, e6, e7, e8, e9) refl

read-message :
    (s : SetupReq) (post : Buffer) → SetupRange s → read_setup_req (message s ++ post) ≡ s
read-message s post r = rw assoc (
    read_fields s b (28 + length s.uri + length s.private_data)
      (read_uint32-append s.session_id [] _ r.id)
      (read_uint64-append s.snd_queue_depth_bytes p1 _ r.snd_bytes)
      (read_uint64-append s.rcv_queue_depth_bytes p2 _ r.rcv_bytes)
      (read_uint16-append s.snd_queue_depth_msgs p3 _ r.snd_msgs)
      (read_uint16-append s.rcv_queue_depth_msgs p4 _ r.rcv_msgs)
      (read_uint16-append (length s.uri) p5 _ (omega (arith, r.fits)))
      (read_uint16-append (length s.private_data) p6 _ (omega (arith, r.fits)))
      (get_some s.uri (fixed s) (s.private_data ++ post)) last)
  where
    p1 : Buffer
    p1 = bytes_32 s.session_id

    p2 : Buffer
    p2 = p1 ++ bytes_64 s.snd_queue_depth_bytes

    p3 : Buffer
    p3 = p2 ++ bytes_64 s.rcv_queue_depth_bytes

    p4 : Buffer
    p4 = p3 ++ bytes_16 s.snd_queue_depth_msgs

    p5 : Buffer
    p5 = p4 ++ bytes_16 s.rcv_queue_depth_msgs

    p6 : Buffer
    p6 = p5 ++ bytes_16 (length s.uri)

    b : Buffer
    b = fixed s ++ (s.uri ++ (s.private_data ++ post))

    assoc : message s ++ post ≡ b
    assoc =
        append_assoc (fixed s ++ s.uri) s.private_data post
        ∙ append_assoc (fixed s) s.uri (s.private_data ++ post)

    last :
        get_array (length s.private_data) (28 + length s.uri) b
        ≡ (s.private_data, 28 + length s.uri + length s.private_data)
    last =
        subst
          (λ n. get_array (length s.private_data) n b ≡ (s.private_data, n + length s.private_data))
          (length-append (fixed s) s.uri)
          (subst
            (λ l.
              get_array (length s.private_data) (length (fixed s ++ s.uri)) l
              ≡ (s.private_data, length (fixed s ++ s.uri) + length s.private_data))
            (append_assoc (fixed s) s.uri (s.private_data ++ post))
            (get_some s.private_data (fixed s ++ s.uri) post))

pub length-replicate : (n : ℕ) → length {A = ℕ} (replicate n 0) ≡ n
length-replicate zero = refl
length-replicate (suc n) = ap suc (length-replicate n)

length-message : (s : SetupReq) → length (message s) ≡ 28 + length s.uri + length s.private_data
length-message s =
    length-append (fixed s ++ s.uri) s.private_data
    ∙ ap (λ n. n + length s.private_data) (length-append (fixed s) s.uri)

check_len-some : (a : At) → a.0 ≤ setup_buffer_len → check_len a ≡ some a
unfolding check_len
check_len-some a h = ground (arith, h)

check_len-none : (a : At) → setup_buffer_len < a.0 → check_len a ≡ none
unfolding check_len
check_len-none a h = ground (arith, h)

-- A setup request of a session whose fields are within their types, and which fits the buffer of
-- 3840 bytes, is written, if there is memory, as a message of 28 bytes, the URI and the private
-- data, from which the server reads the session's number, its queue depths, its URI and its
-- private data.
pub read-write_setup_req :
    (s : SetupReq)
    → SetupRange s
    → (a : At) × (write_setup_req true s ≡ some a)
      × (a.0 ≡ 28 + length s.uri + length s.private_data)
      × (read_setup_req a.1 ≡ s)
unfolding write_setup_req
read-write_setup_req s r =
    let blank : Buffer = replicate setup_buffer_len 0 in
    let e = put_setup_req-fill s blank r (length-replicate setup_buffer_len) in
    (
      fill (message s) blank,
      ap check_len e
          ∙ check_len-some (fill (message s) blank) (omega (arith, length-message s, r.fits)),
      length-message s,
      read-message s (drop (length (message s)) blank) r,
    )

-- The position after the writes, whatever the buffer holds.
put_setup_req_position :
    (s : SetupReq) (p : ℕ) (b : Buffer)
    → (put_setup_req s (p, b)).0 ≡ p + 28 + length s.uri + length s.private_data
unfolding put_setup_req put16 put32 put64 put_array write_uint16 write_uint32 write_uint64
put_setup_req_position s p b = ground arith

-- A request that is longer than its buffer is refused only after it was written, up to a position
-- behind the buffer's end.
pub long_request_overruns :
    (s : SetupReq)
    → setup_buffer_len < 28 + length s.uri + length s.private_data
    → (write_setup_req true s ≡ none)
      × (setup_buffer_len < (put_setup_req s (0, replicate setup_buffer_len 0)).0)
unfolding write_setup_req
long_request_overruns s h =
    let blank : Buffer = replicate setup_buffer_len 0 in
    let p = put_setup_req_position s 0 blank in
    (check_len-none (put_setup_req s (0, blank)) (omega (arith, p)), omega (arith, p))
