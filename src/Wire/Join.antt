-- ===== src/Wire/Join.antt =====
-- The bytes of a word, shifted and joined by `|`, make up the word.
use Prim.Native.Nat.{bit_or}
use accelio.Prelude.{ℕ, ◌+◌, ◌*◌, ◌/◌, ◌%◌, ◌^◌, ◌<◌, ◌≡◌, ◌∙◌, arith}
use accelio.Prelude.Bits.{shl, low_bits, bit_or-shl}
use accelio.Wire.{byte, join64}

-- One byte joined below: `c << k` fills the eight places that `a << (k + 8)` leaves free.
join_56 : (a c : ℕ) → c < 256 → bit_or (shl a 56) (shl c 48) ≡ shl (a * 256 + c) 48
join_56 a c h = bit_or-shl 56 a (shl c 48) (omega arith) ∙ omega arith

join_48 : (a c : ℕ) → c < 256 → bit_or (shl a 48) (shl c 40) ≡ shl (a * 256 + c) 40
join_48 a c h = bit_or-shl 48 a (shl c 40) (omega arith) ∙ omega arith

join_40 : (a c : ℕ) → c < 256 → bit_or (shl a 40) (shl c 32) ≡ shl (a * 256 + c) 32
join_40 a c h = bit_or-shl 40 a (shl c 32) (omega arith) ∙ omega arith

join_32 : (a c : ℕ) → c < 256 → bit_or (shl a 32) (shl c 24) ≡ shl (a * 256 + c) 24
join_32 a c h = bit_or-shl 32 a (shl c 24) (omega arith) ∙ omega arith

join_24 : (a c : ℕ) → c < 256 → bit_or (shl a 24) (shl c 16) ≡ shl (a * 256 + c) 16
join_24 a c h = bit_or-shl 24 a (shl c 16) (omega arith) ∙ omega arith

join_16 : (a c : ℕ) → c < 256 → bit_or (shl a 16) (shl c 8) ≡ shl (a * 256 + c) 8
join_16 a c h = bit_or-shl 16 a (shl c 8) (omega arith) ∙ omega arith

join_8 : (a c : ℕ) → c < 256 → bit_or (shl a 8) c ≡ a * 256 + c
join_8 a c h = bit_or-shl 8 a c (omega arith) ∙ omega arith

pub join_bytes_16 : (v : ℕ) → v < 2 ^ 16 → bit_or (shl (byte v 8) 8) (low_bits v 8) ≡ v
join_bytes_16 v h = join_8 (byte v 8) (low_bits v 8) (omega arith) ∙ omega arith

join_four :
    (a b c d : ℕ)
    → b < 256
    → c < 256
    → d < 256
    → bit_or (bit_or (bit_or (shl a 24) (shl b 16)) (shl c 8)) d
      ≡ ((a * 256 + b) * 256 + c) * 256 + d
join_four a b c d hb hc hd = rw (join_24 a b hb, join_16 (a * 256 + b) c hc) (join_8 _ d hd)

join_eight :
    (a b c d e f g h : ℕ)
    → b < 256
    → c < 256
    → d < 256
    → e < 256
    → f < 256
    → g < 256
    → h < 256
    → join64 a b c d e f g h
      ≡ (((((((a * 256 + b) * 256 + c) * 256 + d) * 256 + e) * 256 + f) * 256 + g) * 256 + h)
unfolding join64
join_eight a b c d e f g h hb hc hd he hf hg hh =
    rw (join_56 a b hb, join_48 (a * 256 + b) c hc, join_40 ((a * 256 + b) * 256 + c) d hd)
      (rw
        (
          join_32 (((a * 256 + b) * 256 + c) * 256 + d) e he,
          join_24 ((((a * 256 + b) * 256 + c) * 256 + d) * 256 + e) f hf,
          join_16 (((((a * 256 + b) * 256 + c) * 256 + d) * 256 + e) * 256 + f) g hg,
        )
        (join_8 _ h hh))

byte-lt : (v k : ℕ) → byte v k < 256
byte-lt v k = omega arith

-- A word shifted right by eight more places, with the byte that falls out.
byte_below : (x : ℕ) → x / 256 * 256 + x % 256 ≡ x
byte_below x = omega arith

pub join_bytes_32 :
    (v : ℕ)
    → v < 2 ^ 32
    → bit_or
        (bit_or (bit_or (shl (byte v 24) 24) (shl (byte v 16) 16)) (shl (byte v 8) 8))
        (low_bits v 8)
      ≡ v
join_bytes_32 v h =
    join_four (byte v 24) (byte v 16) (byte v 8) (low_bits v 8) (omega arith) (omega arith)
      (omega arith)
    ∙ omega arith

pub join_bytes_64 :
    (v : ℕ)
    → v < 2 ^ 64
    → join64
        (byte v 56)
        (byte v 48)
        (byte v 40)
        (byte v 32)
        (byte v 24)
        (byte v 16)
        (byte v 8)
        (low_bits v 8)
      ≡ v
join_bytes_64 v h =
    join_eight (byte v 56) (byte v 48) (byte v 40) (byte v 32) (byte v 24) (byte v 16) (byte v 8)
      (low_bits v 8) (omega arith) (omega arith) (omega arith) (omega arith) (omega arith)
      (omega arith) (omega arith)
    ∙ omega arith
