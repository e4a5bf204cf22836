-- ===== src/Mbuf/Reading.antt =====
-- A reader stays inside its record, and sees nothing else.
use accelio.Prelude.{
  ℕ, zero, suc, ◌+◌, ◌-◌, ◌≤◌, ◌<◌, ◌^◌, ◌≡◌, refl, ap, Option, some, ◌∷◌, true, ltb, leb,
  Bool-cases, inl, inr, arith,
}
use accelio.Wire.{Buffer, at, get_bytes, read_uint8, read_uint16, read_uint32, read_uint64}
use accelio.Mbuf.{Mbuf, Status, offset, sum_to_ptr, ptr_diff}
use accelio.Mbuf.Io.{read_u8, read_u16, read_u32, read_u64, read_array}
use accelio.Mbuf.Safety.{IsValid}

-- Where the cursor of a reader stands: in the record that was read last.
abbrev pub InRecord : Mbuf → Type 0
InRecord m = IsValid m × (m.curr ≤ m.tlv_tail)

-- `mem` holds the same bytes as the buffer from the cursor to the end of the record.
abbrev pub SameRecord : Mbuf → Buffer → Type 0
SameRecord m mem = (k : ℕ) → m.curr ≤ m.base + k → m.base + k < m.tlv_tail → at mem k ≡ at m.mem k

abbrev pub with_mem : Mbuf → Buffer → Mbuf
with_mem m mem = record m { mem = mem }

-- The readers leave a cursor inside the record that was read last inside it, also where they fail.
readers-InRecord :
    (m : Mbuf) (len : ℕ)
    → InRecord m
    → len < 2 ^ 63
    → InRecord (read_u8 m).2
      × InRecord (read_u16 m).2
      × InRecord (read_u32 m).2
      × InRecord (read_u64 m).2
      × InRecord (read_array m len).2
unfolding read_u8 read_u16 read_u32 read_u64 read_array read_uint8 read_uint16 read_uint32
    read_uint64
readers-InRecord m len h small =
    (ground arith, ground arith, ground arith, ground arith, ground arith)

-- The bytes behind the cursor, as far as they are in the record.
inside :
    (m : Mbuf) (mem : Buffer) (n k : ℕ)
    → InRecord m
    → SameRecord m mem
    → m.curr + n ≤ m.tlv_tail
    → offset m m.curr ≤ k
    → k < offset m m.curr + n
    → at mem k ≡ at m.mem k
inside m mem n k (v, c) s g l h =
    let a : m.curr < 2 ^ 63 = omega (arith, c, v.tlv_le, v.low) in
    let d : m.base ≤ m.curr = omega (arith, v.base_le, v.head_le) in
    let e : offset m m.curr ≡ m.curr - m.base = ground (arith, a, d) in
    s k (omega (arith, e, d, l)) (omega (arith, e, d, g, h))

-- A reader of `n` bytes passes its test only if they are in the record.
test_inside :
    (m : Mbuf) (n : ℕ)
    → InRecord m
    → n < 2 ^ 63
    → leb (sum_to_ptr m.curr n) m.tlv_tail ≡ true
    → m.curr + n ≤ m.tlv_tail
test_inside m n (v, c) b g = ground (arith, c, v.tlv_le, v.low, b, g)

wide_inside :
    (m : Mbuf) → InRecord m → ltb 8 (ptr_diff m.tlv_tail m.curr) ≡ true → m.curr + 8 ≤ m.tlv_tail
wide_inside m (v, c) g = ground (arith, c, v.tlv_le, v.low, g)

get_bytes_same :
    (n k : ℕ) (a b : Buffer)
    → ((i : ℕ) → k ≤ i → i < k + n → at a i ≡ at b i)
    → get_bytes n k a ≡ get_bytes n k b
unfolding get_bytes
get_bytes_same zero k a b f = refl
get_bytes_same (suc n) k a b f =
    rw (f k (omega arith) (omega arith)) (
      ap (λ l. at b k ∷ l)
        (get_bytes_same n (k + 1) a b (λ i l h. f i (omega arith) (omega arith))))

read_uint16_same :
    (k : ℕ) (a b : Buffer)
    → at a (k) ≡ at b (k)
    → at a (k + 1) ≡ at b (k + 1)
    → (read_uint16 k a).0 ≡ (read_uint16 k b).0
unfolding read_uint16
read_uint16_same k a b e0 e1 = rw (e0, e1) refl

read_uint32_same :
    (k : ℕ) (a b : Buffer)
    → at a (k) ≡ at b (k)
    → at a (k + 1) ≡ at b (k + 1)
    → at a (k + 2) ≡ at b (k + 2)
    → at a (k + 3) ≡ at b (k + 3)
    → (read_uint32 k a).0 ≡ (read_uint32 k b).0
unfolding read_uint32
read_uint32_same k a b e0 e1 e2 e3 = rw (e0, e1, e2, e3) refl

read_uint64_same :
    (k : ℕ) (a b : Buffer)
    → at a (k) ≡ at b (k)
    → at a (k + 1) ≡ at b (k + 1)
    → at a (k + 2) ≡ at b (k + 2)
    → at a (k + 3) ≡ at b (k + 3)
    → at a (k + 4) ≡ at b (k + 4)
    → at a (k + 5) ≡ at b (k + 5)
    → at a (k + 6) ≡ at b (k + 6)
    → at a (k + 7) ≡ at b (k + 7)
    → (read_uint64 k a).0 ≡ (read_uint64 k b).0
unfolding read_uint64
read_uint64_same k a b e0 e1 e2 e3 e4 e5 e6 e7 = rw (e0, e1, e2, e3, e4, e5, e6, e7) refl

-- Two readings with the same answer and the same value.
abbrev pub SameRead : {A : Type 0} → Status × Option A × Mbuf → Status × Option A × Mbuf → Type 0
SameRead r r' = (r'.0 ≡ r.0) × (r'.1 ≡ r.1)

read_u8-SameRead :
    (m : Mbuf) (mem : Buffer)
    → InRecord m
    → SameRecord m mem
    → SameRead (read_u8 m) (read_u8 (with_mem m mem))
unfolding read_u8 read_uint8
read_u8-SameRead m mem r s =
    let k = offset m m.curr in
    elim (Bool-cases (leb (sum_to_ptr m.curr 1) m.tlv_tail)) [
      | inl g ↦ rw g (
        refl,
        ap some
            (inside m mem 1 k r s (test_inside m 1 r (omega arith) g) (omega arith) (omega arith)),
      )
      | inr g ↦ rw g (refl, refl)
    ]

read_u16-SameRead :
    (m : Mbuf) (mem : Buffer)
    → InRecord m
    → SameRecord m mem
    → SameRead (read_u16 m) (read_u16 (with_mem m mem))
unfolding read_u16 read_uint16
read_u16-SameRead m mem r s =
    let k = offset m m.curr in
    elim (Bool-cases (leb (sum_to_ptr m.curr 2) m.tlv_tail)) [
      | inl g ↦ rw g (
        refl,
        ap some (
            read_uint16_same k mem m.mem
              (inside m mem 2 (k) r s (test_inside m 2 r (omega arith) g) (omega arith)
                (omega arith))
              (inside m mem 2 (k + 1) r s (test_inside m 2 r (omega arith) g) (omega arith)
                (omega arith))),
      )
      | inr g ↦ rw g (refl, refl)
    ]

read_u32-SameRead :
    (m : Mbuf) (mem : Buffer)
    → InRecord m
    → SameRecord m mem
    → SameRead (read_u32 m) (read_u32 (with_mem m mem))
unfolding read_u32 read_uint32
read_u32-SameRead m mem r s =
    let k = offset m m.curr in
    elim (Bool-cases (leb (sum_to_ptr m.curr 4) m.tlv_tail)) [
      | inl g ↦ rw g (
        refl,
        ap some (
            read_uint32_same k mem m.mem
              (inside m mem 4 (k) r s (test_inside m 4 r (omega arith) g) (omega arith)
                (omega arith))
              (inside m mem 4 (k + 1) r s (test_inside m 4 r (omega arith) g) (omega arith)
                (omega arith))
              (inside m mem 4 (k + 2) r s (test_inside m 4 r (omega arith) g) (omega arith)
                (omega arith))
              (inside m mem 4 (k + 3) r s (test_inside m 4 r (omega arith) g) (omega arith)
                (omega arith))),
      )
      | inr g ↦ rw g (refl, refl)
    ]

read_u64-SameRead :
    (m : Mbuf) (mem : Buffer)
    → InRecord m
    → SameRecord m mem
    → SameRead (read_u64 m) (read_u64 (with_mem m mem))
unfolding read_u64 read_uint64
read_u64-SameRead m mem r s =
    let k = offset m m.curr in
    elim (Bool-cases (ltb 8 (ptr_diff m.tlv_tail m.curr))) [
      | inl g ↦ rw g (
        refl,
        ap some (
            read_uint64_same k mem m.mem
              (inside m mem 8 (k) r s (wide_inside m r g) (omega arith) (omega arith))
              (inside m mem 8 (k + 1) r s (wide_inside m r g) (omega arith) (omega arith))
              (inside m mem 8 (k + 2) r s (wide_inside m r g) (omega arith) (omega arith))
              (inside m mem 8 (k + 3) r s (wide_inside m r g) (omega arith) (omega arith))
              (inside m mem 8 (k + 4) r s (wide_inside m r g) (omega arith) (omega arith))
              (inside m mem 8 (k + 5) r s (wide_inside m r g) (omega arith) (omega arith))
              (inside m mem 8 (k + 6) r s (wide_inside m r g) (omega arith) (omega arith))
              (inside m mem 8 (k + 7) r s (wide_inside m r g) (omega arith) (omega arith))),
      )
      | inr g ↦ rw g (refl, refl)
    ]

read_array-SameRead :
    (m : Mbuf) (mem : Buffer) (len : ℕ)
    → InRecord m
    → SameRecord m mem
    → len < 2 ^ 63
    → SameRead (read_array m len) (read_array (with_mem m mem) len)
unfolding read_array
read_array-SameRead m mem len r s b = elim (Bool-cases (leb (sum_to_ptr m.curr len) m.tlv_tail)) [
  | inl g ↦ rw g (
    refl,
    ap some (
        get_bytes_same len (offset m m.curr) mem m.mem
          (λ i l h. inside m mem len i r s (test_inside m len r b g) l h)),
  )
  | inr g ↦ rw g (refl, refl)
]

-- In a buffer that ends below the address 2^63, with the cursor inside the record that was read last,
-- the readers of 8, 16, 32 and 64 bits, and that of arrays shorter than 2^63 bytes, leave the cursor
-- inside the record, also where they fail; and what they answer and read depends on the bytes of the
-- record from the cursor on, and on no other byte of the buffer.
pub readers_see_record :
    (m : Mbuf) (mem : Buffer) (len : ℕ)
    → InRecord m
    → SameRecord m mem
    → len < 2 ^ 63
    → (InRecord (read_u8 m).2 × SameRead (read_u8 m) (read_u8 (with_mem m mem)))
      × (InRecord (read_u16 m).2 × SameRead (read_u16 m) (read_u16 (with_mem m mem)))
      × (InRecord (read_u32 m).2 × SameRead (read_u32 m) (read_u32 (with_mem m mem)))
      × (InRecord (read_u64 m).2 × SameRead (read_u64 m) (read_u64 (with_mem m mem)))
      × (InRecord (read_array m len).2
          × SameRead (read_array m len) (read_array (with_mem m mem) len))
readers_see_record m mem len r s b =
    let (a8, a16, a32, a64, aa) = readers-InRecord m len r b in
    (
      (a8, read_u8-SameRead m mem r s),
      (a16, read_u16-SameRead m mem r s),
      (a32, read_u32-SameRead m mem r s),
      (a64, read_u64-SameRead m mem r s),
      (aa, read_array-SameRead m mem len r s b),
    )
