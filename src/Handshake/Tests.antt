-- ===== src/Handshake/Tests.antt =====
-- Messages of the handshake at fixed inputs.
use accelio.Prelude.{ℕ, ◌≡◌, true, some, List, [], ◌∷◌, arith}
use accelio.Handshake.{At, SetupReq, write_setup_req, read_setup_req}
use accelio.Handshake.{Depths, write_accept_rsp, action_accept, read_setup_rsp, accepted}
use accelio.Handshake.Request.{SetupRange, read-write_setup_req}
use accelio.Handshake.Accept.{AcceptRange, read-write_accept_rsp}

abbrev session : SetupReq
session = record {
  session_id = 7;
  snd_queue_depth_bytes = 67108864;
  rcv_queue_depth_bytes = 67108864;
  snd_queue_depth_msgs = 1024;
  rcv_queue_depth_msgs = 1024;
  uri = 114 ∷ 100 ∷ 109 ∷ 97 ∷ [];
  private_data = 1 ∷ 2 ∷ [];
}

session-SetupRange : SetupRange session
session-SetupRange = record {
  id = omega arith;
  snd_bytes = omega arith;
  rcv_bytes = omega arith;
  snd_msgs = omega arith;
  rcv_msgs = omega arith;
  fits = omega arith;
}

read-write_setup_req_example :
    (a : At) × (write_setup_req true session ≡ some a) × (a.0 ≡ 34) × (read_setup_req a.1 ≡ session)
read-write_setup_req_example = read-write_setup_req session session-SetupRange

abbrev server : Depths
server = record {
  session_id = 9;
  snd_queue_depth_bytes = 67108864;
  rcv_queue_depth_bytes = 4096;
  snd_queue_depth_msgs = 1024;
  rcv_queue_depth_msgs = 16;
}

-- Two portals of two and three bytes.
abbrev portals : List (List ℕ)
portals = (97 ∷ 98 ∷ []) ∷ (99 ∷ 100 ∷ 101 ∷ []) ∷ []

server-AcceptRange : AcceptRange server portals (5 ∷ [])
server-AcceptRange = record {
  id = omega arith;
  snd_bytes = omega arith;
  rcv_bytes = omega arith;
  snd_msgs = omega arith;
  rcv_msgs = omega arith;
  fits = omega arith;
}

read-write_accept_rsp_example :
    (a : At) × (write_accept_rsp true action_accept server portals (5 ∷ []) ≡ some a)
    × (a.0 ≡ 40)
    × (read_setup_rsp a.1 ≡ accepted server portals (5 ∷ []))
read-write_accept_rsp_example = read-write_accept_rsp server portals (5 ∷ []) server-AcceptRange
