-- ===== src/Wire.antt =====
-- src/common/xio_protocol.h: integers and arrays in network byte order at a position of a packet
-- buffer. A buffer is the list of its bytes; a function that writes through `buffer` returns the
-- size that the C function returns and the new buffer, one that reads through `*b` returns the
-- value and the size. `&` with 0xff keeps eight bits, and `>>` and `<<` are by 2 ^ k. A byte
-- outside the buffer is read as 0 and is not written: the callers of xio_mbuf.h check the bounds.
pub mod Store
pub mod Join
pub mod Integers
mod Tests
use Prim.Native.Nat.{bit_or}
use accelio.Prelude.{ℕ, zero, suc, ◌+◌, List, [], ◌∷◌, get_or, set}
use accelio.Prelude.Bits.{shr, shl, low_bits}

abbrev pub Buffer : Type 0
Buffer = List ℕ

-- `buffer[i]`
abbrev pub at : Buffer → ℕ → ℕ
at buffer i = get_or buffer i 0

-- `(b >> k) & 0xff`
abbrev pub byte : ℕ → ℕ → ℕ
byte b k = low_bits (shr b k) 8

unfoldable pub write_uint8 : ℕ → ℕ → Buffer → ℕ × Buffer
write_uint8 b bindex buffer = (1, set buffer bindex b)

unfoldable pub read_uint8 : ℕ → Buffer → ℕ × ℕ
read_uint8 bindex buffer = (at buffer bindex, 1)

unfoldable pub write_uint16 : ℕ → ℕ → Buffer → ℕ × Buffer
write_uint16 b bindex buffer =
    let buffer1 = set buffer bindex (byte b 8) in
    let buffer2 = set buffer1 (bindex + 1) (low_bits b 8) in (2, buffer2)

unfoldable pub read_uint16 : ℕ → Buffer → ℕ × ℕ
read_uint16 bindex buffer = (bit_or (shl (at buffer bindex) 8) (at buffer (bindex + 1)), 2)

unfoldable pub write_uint32 : ℕ → ℕ → Buffer → ℕ × Buffer
write_uint32 b bindex buffer =
    let buffer1 = set buffer bindex (byte b 24) in
    let buffer2 = set buffer1 (bindex + 1) (byte b 16) in
    let buffer3 = set buffer2 (bindex + 2) (byte b 8) in
    let buffer4 = set buffer3 (bindex + 3) (low_bits b 8) in (4, buffer4)

unfoldable pub read_uint32 : ℕ → Buffer → ℕ × ℕ
read_uint32 bindex buffer = (
  bit_or
      (bit_or (bit_or (shl (at buffer bindex) 24) (shl (at buffer (bindex + 1)) 16))
        (shl (at buffer (bindex + 2)) 8))
      (at buffer (bindex + 3)),
  4,
)

unfoldable pub write_uint64 : ℕ → ℕ → Buffer → ℕ × Buffer
write_uint64 b bindex buffer =
    let buffer1 = set buffer bindex (byte b 56) in
    let buffer2 = set buffer1 (bindex + 1) (byte b 48) in
    let buffer3 = set buffer2 (bindex + 2) (byte b 40) in
    let buffer4 = set buffer3 (bindex + 3) (byte b 32) in
    let buffer5 = set buffer4 (bindex + 4) (byte b 24) in
    let buffer6 = set buffer5 (bindex + 5) (byte b 16) in
    let buffer7 = set buffer6 (bindex + 6) (byte b 8) in
    let buffer8 = set buffer7 (bindex + 7) (low_bits b 8) in (8, buffer8)

-- The eight terms of the expression, joined from the left as C reads `a | b | c`.
pub join64 : ℕ → ℕ → ℕ → ℕ → ℕ → ℕ → ℕ → ℕ → ℕ
join64 b0 b1 b2 b3 b4 b5 b6 b7 =
    let high = bit_or (bit_or (bit_or (shl b0 56) (shl b1 48)) (shl b2 40)) (shl b3 32) in
    bit_or (bit_or (bit_or (bit_or high (shl b4 24)) (shl b5 16)) (shl b6 8)) b7

unfoldable pub read_uint64 : ℕ → Buffer → ℕ × ℕ
unfolding join64
read_uint64 bindex buffer = (
  join64 (at buffer bindex) (at buffer (bindex + 1)) (at buffer (bindex + 2))
      (at buffer (bindex + 3)) (at buffer (bindex + 4)) (at buffer (bindex + 5))
      (at buffer (bindex + 6)) (at buffer (bindex + 7)),
  8,
)

-- `memcpy(buffer + k, b, length of b)`
unfoldable pub put_bytes : Buffer → ℕ → Buffer → Buffer
put_bytes [] k buffer = buffer
put_bytes (x ∷ xs) k buffer = put_bytes xs (k + 1) (set buffer k x)

-- `memcpy(b, buffer + k, n)`
unfoldable pub get_bytes : ℕ → ℕ → Buffer → Buffer
get_bytes zero k buffer = []
get_bytes (suc n) k buffer = at buffer k ∷ get_bytes n (k + 1) buffer
