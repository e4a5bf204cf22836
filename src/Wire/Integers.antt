-- ===== src/Wire/Integers.antt =====
-- The integer writers are stores of the big-endian bytes, and the readers give them back.
use native.Mathlib.Nat.{add_assoc}
use accelio.Prelude.{
  ℕ, ◌+◌, ◌≤◌, ◌<◌, ◌^◌, ◌≡◌, refl, [], ◌∷◌, arith, length, length-set, get_or-set_self,
  get_or-set_ne,
}
use accelio.Prelude.Bits.{low_bits}
use accelio.Wire.{
  Buffer, at, byte, write_uint8, read_uint8, write_uint16, read_uint16, write_uint32, read_uint32,
  write_uint64, read_uint64, put_bytes,
}
use accelio.Wire.Store.{Outside, length-put_bytes, at-put_bytes, at-put_bytes-Outside}
use accelio.Wire.Join.{join_bytes_16, join_bytes_32, join_bytes_64}

abbrev pub bytes_16 : ℕ → Buffer
bytes_16 v = byte v 8 ∷ low_bits v 8 ∷ []

abbrev pub bytes_32 : ℕ → Buffer
bytes_32 v = byte v 24 ∷ byte v 16 ∷ byte v 8 ∷ low_bits v 8 ∷ []

abbrev pub bytes_64 : ℕ → Buffer
bytes_64 v =
    byte v 56
    ∷ byte v 48
    ∷ byte v 40
    ∷ byte v 32
    ∷ byte v 24
    ∷ byte v 16
    ∷ byte v 8
    ∷ low_bits v 8
    ∷ []

pub write_uint16-put_bytes :
    (v i : ℕ) (b : Buffer) → write_uint16 v i b ≡ (2, put_bytes (bytes_16 v) i b)
unfolding write_uint16 put_bytes
write_uint16-put_bytes v i b = refl

pub write_uint32-put_bytes :
    (v i : ℕ) (b : Buffer) → write_uint32 v i b ≡ (4, put_bytes (bytes_32 v) i b)
unfolding write_uint32 put_bytes
write_uint32-put_bytes v i b = simp add_assoc

pub write_uint64-put_bytes :
    (v i : ℕ) (b : Buffer) → write_uint64 v i b ≡ (8, put_bytes (bytes_64 v) i b)
unfolding write_uint64 put_bytes
write_uint64-put_bytes v i b = simp add_assoc

-- A buffer that holds the four (eight) bytes of a word at a position reads as that word.
pub read_uint32-at :
    (v p : ℕ) (b : Buffer)
    → v < 2 ^ 32
    → at b p ≡ byte v 24
    → at b (p + 1) ≡ byte v 16
    → at b (p + 2) ≡ byte v 8
    → at b (p + 3) ≡ low_bits v 8
    → read_uint32 p b ≡ (v, 4)
unfolding read_uint32
read_uint32-at v p b hv e0 e1 e2 e3 = rw (e0, e1, e2, e3) (rw (join_bytes_32 v hv))

pub read_uint64-at :
    (v p : ℕ) (b : Buffer)
    → v < 2 ^ 64
    → at b p ≡ byte v 56
    → at b (p + 1) ≡ byte v 48
    → at b (p + 2) ≡ byte v 40
    → at b (p + 3) ≡ byte v 32
    → at b (p + 4) ≡ byte v 24
    → at b (p + 5) ≡ byte v 16
    → at b (p + 6) ≡ byte v 8
    → at b (p + 7) ≡ low_bits v 8
    → read_uint64 p b ≡ (v, 8)
unfolding read_uint64
read_uint64-at v p b hv e0 e1 e2 e3 e4 e5 e6 e7 =
    rw (e0, e1, e2, e3, e4, e5, e6, e7) (rw (join_bytes_64 v hv))

pub read_put_16 :
    (v i : ℕ) (b : Buffer)
    → v < 2 ^ 16
    → i + 2 ≤ length b
    → read_uint16 i (put_bytes (bytes_16 v) i b) ≡ (v, 2)
unfolding read_uint16
read_put_16 v i b hv hb =
    rw
      (
        at-put_bytes (bytes_16 v) i 0 i b hb (omega arith) (omega arith),
        at-put_bytes (bytes_16 v) i 1 (i + 1) b hb (omega arith) refl,
      )
      (rw (join_bytes_16 v hv))

pub read_put_32 :
    (v i : ℕ) (b : Buffer)
    → v < 2 ^ 32
    → i + 4 ≤ length b
    → read_uint32 i (put_bytes (bytes_32 v) i b) ≡ (v, 4)
read_put_32 v i b hv hb =
    read_uint32-at v i (put_bytes (bytes_32 v) i b) hv (stored 0 i (omega arith) (omega arith))
      (stored 1 (i + 1) (omega arith) refl) (stored 2 (i + 2) (omega arith) refl)
      (stored 3 (i + 3) (omega arith) refl)
  where
    stored : (j p : ℕ) → j < 4 → p ≡ i + j → at (put_bytes (bytes_32 v) i b) p ≡ at (bytes_32 v) j
    stored j p = at-put_bytes (bytes_32 v) i j p b hb

pub read_put_64 :
    (v i : ℕ) (b : Buffer)
    → v < 2 ^ 64
    → i + 8 ≤ length b
    → read_uint64 i (put_bytes (bytes_64 v) i b) ≡ (v, 8)
read_put_64 v i b hv hb =
    read_uint64-at v i (put_bytes (bytes_64 v) i b) hv (stored 0 i (omega arith) (omega arith))
      (stored 1 (i + 1) (omega arith) refl) (stored 2 (i + 2) (omega arith) refl)
      (stored 3 (i + 3) (omega arith) refl) (stored 4 (i + 4) (omega arith) refl)
      (stored 5 (i + 5) (omega arith) refl) (stored 6 (i + 6) (omega arith) refl)
      (stored 7 (i + 7) (omega arith) refl)
  where
    stored : (j p : ℕ) → j < 8 → p ≡ i + j → at (put_bytes (bytes_64 v) i b) p ≡ at (bytes_64 v) j
    stored j p = at-put_bytes (bytes_64 v) i j p b hb

-- What a store of `n` bytes by a writer leaves behind: the size returned, the length kept, and
-- every byte outside of the `n` as it was.
abbrev pub Stores : ℕ → (Buffer → ℕ × Buffer) → Buffer → ℕ → ℕ → Type 0
Stores n write b i j =
    ((write b).0 ≡ n) × (length (write b).1 ≡ length b) × (at (write b).1 j ≡ at b j)

-- `xio_read_uint8` gives back the byte that `xio_write_uint8` put, and no other byte changes.
pub uint8_round_trip :
    (v i j : ℕ) (b : Buffer)
    → i + 1 ≤ length b
    → Outside i 1 j
    → (read_uint8 i (write_uint8 v i b).1 ≡ (v, 1)) × Stores 1 (write_uint8 v i) b i j
unfolding read_uint8 write_uint8
uint8_round_trip v i j b hb ho = (
  rw (get_or-set_self b i v 0 (omega arith)),
  (refl, length-set b i v, get_or-set_ne b i j v 0 (omega arith)),
)

-- `xio_read_uint16` gives back the number below 2^16 that `xio_write_uint16` put, where the two
-- bytes lie in the buffer; the writer changes no other byte, nor the buffer's length.
pub uint16_round_trip :
    (v i j : ℕ) (b : Buffer)
    → v < 2 ^ 16
    → i + 2 ≤ length b
    → Outside i 2 j
    → (read_uint16 i (write_uint16 v i b).1 ≡ (v, 2)) × Stores 2 (write_uint16 v i) b i j
uint16_round_trip v i j b hv hb ho = rw (write_uint16-put_bytes v i b) (
  read_put_16 v i b hv hb,
  (refl, length-put_bytes (bytes_16 v) i b, at-put_bytes-Outside (bytes_16 v) i j b ho),
)

-- `xio_read_uint32` gives back the number below 2^32 that `xio_write_uint32` put, where the four
-- bytes lie in the buffer; the writer changes no other byte, nor the buffer's length.
pub uint32_round_trip :
    (v i j : ℕ) (b : Buffer)
    → v < 2 ^ 32
    → i + 4 ≤ length b
    → Outside i 4 j
    → (read_uint32 i (write_uint32 v i b).1 ≡ (v, 4)) × Stores 4 (write_uint32 v i) b i j
uint32_round_trip v i j b hv hb ho = rw (write_uint32-put_bytes v i b) (
  read_put_32 v i b hv hb,
  (refl, length-put_bytes (bytes_32 v) i b, at-put_bytes-Outside (bytes_32 v) i j b ho),
)

-- `xio_read_uint64` gives back the number below 2^64 that `xio_write_uint64` put, where the eight
-- bytes lie in the buffer; the writer changes no other byte, nor the buffer's length.
pub uint64_round_trip :
    (v i j : ℕ) (b : Buffer)
    → v < 2 ^ 64
    → i + 8 ≤ length b
    → Outside i 8 j
    → (read_uint64 i (write_uint64 v i b).1 ≡ (v, 8)) × Stores 8 (write_uint64 v i) b i j
uint64_round_trip v i j b hv hb ho = rw (write_uint64-put_bytes v i b) (
  read_put_64 v i b hv hb,
  (refl, length-put_bytes (bytes_64 v) i b, at-put_bytes-Outside (bytes_64 v) i j b ho),
)

-- The writers never change the length of the buffer, also past its end.
pub length-write_uint8 : (v i : ℕ) (b : Buffer) → length (write_uint8 v i b).1 ≡ length b
unfolding write_uint8
length-write_uint8 v i b = length-set b i v

pub length-write_uint16 : (v i : ℕ) (b : Buffer) → length (write_uint16 v i b).1 ≡ length b
length-write_uint16 v i b = rw (write_uint16-put_bytes v i b) (length-put_bytes (bytes_16 v) i b)

pub length-write_uint32 : (v i : ℕ) (b : Buffer) → length (write_uint32 v i b).1 ≡ length b
length-write_uint32 v i b = rw (write_uint32-put_bytes v i b) (length-put_bytes (bytes_32 v) i b)

pub length-write_uint64 : (v i : ℕ) (b : Buffer) → length (write_uint64 v i b).1 ≡ length b
length-write_uint64 v i b = rw (write_uint64-put_bytes v i b) (length-put_bytes (bytes_64 v) i b)
