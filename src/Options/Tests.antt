-- ===== src/Options/Tests.antt =====
-- The options at work.
use accelio.Prelude.{inl, ◌≡◌, refl, true, false, some, arith, if◌then◌else◌}
use accelio.Options.{
  OptVal, int, max_in_iovlen, xfer_buf_align, defaults, general_set_opt, general_get_opt,
}
use accelio.Options.Laws.{IsValid, set-IsValid, get-set}

abbrev value : OptVal
value = record { null = false; word = 64; keepalive = record { probes = 3; time = 60; intvl = 20 } }

defaults-IsValid : IsValid defaults
defaults-IsValid = record {
  in_least = omega arith;
  in_most = omega arith;
  out_least = omega arith;
  out_most = omega arith;
  snd_some = omega arith;
  snd_int = omega arith;
  rcv_some = omega arith;
  rcv_int = omega arith;
  snd_bytes = omega arith;
  rcv_bytes = omega arith;
  header = omega arith;
  inlined = omega arith;
  buf_align = record { power = refl; eights = refl };
  data_align = inl refl;
  timeout = omega arith;
}

set-IsValid_example :
    IsValid (general_set_opt (8, 4, 24, 40) true defaults xfer_buf_align value 4).1
set-IsValid_example =
    set-IsValid (8, 4, 24, 40) true defaults xfer_buf_align value 4 defaults-IsValid

get-set_example :
    let r = general_set_opt (8, 4, 24, 40) true defaults max_in_iovlen value 4 in
    if r.0 then general_get_opt 0 r.1 max_in_iovlen 12 ≡ some (int 64) else r.1 ≡ defaults
get-set_example = get-set (8, 4, 24, 40) defaults max_in_iovlen value 4 0 refl
