-- ===== src/Handshake/Fields.antt =====
-- Fields written one after the other, and read back where they stand.
use mathlib.Core.List.{append_assoc}
use accelio.Prelude.{
  ℕ, zero, suc, ◌+◌, ◌^◌, ◌≤◌, ◌<◌, ◌≡◌, refl, sym, ap, ◌∙◌, [], ◌∷◌, ◌++◌, length, drop, arith,
  set, length-append, subst, length-drop,
}
use accelio.Wire.{Buffer, at, read_uint16, read_uint32, read_uint64, put_bytes, get_bytes}
use accelio.Wire.Integers.{
  bytes_16, bytes_32, bytes_64, write_uint16-put_bytes, write_uint32-put_bytes,
  write_uint64-put_bytes, read_put_16, read_put_32, read_put_64,
}
use accelio.Handshake.{At, put16, put32, put64, put_array}

-- A byte set behind a prefix.
set-append : (pre rest : Buffer) (x y : ℕ) → set (pre ++ y ∷ rest) (length pre) x ≡ pre ++ x ∷ rest
set-append [] rest x y = refl
set-append (z ∷ pre) rest x y = ap (λ l. z ∷ l) (set-append pre rest x y)

length-snoc : (pre : Buffer) (x : ℕ) → length pre + 1 ≡ length (pre ++ x ∷ [])
length-snoc pre x = omega (arith, length-append pre (x ∷ []))

-- Bytes copied behind a prefix.
pub put_bytes-append :
    (xs pre rest : Buffer)
    → length xs ≤ length rest
    → put_bytes xs (length pre) (pre ++ rest) ≡ pre ++ (xs ++ drop (length xs) rest)
unfolding put_bytes
put_bytes-append [] pre rest h = refl
put_bytes-append (x ∷ xs) pre [] h = absurd (omega arith)
put_bytes-append (x ∷ xs) pre (y ∷ rest) h =
    ap (put_bytes xs (length pre + 1))
      (set-append pre rest x y ∙ sym (append_assoc pre (x ∷ []) rest))
    ∙ ap (λ k. put_bytes xs k ((pre ++ x ∷ []) ++ rest)) (length-snoc pre x)
    ∙ put_bytes-append xs (pre ++ x ∷ []) rest (omega arith)
    ∙ append_assoc pre (x ∷ []) (xs ++ drop (length xs) rest)

-- The state after `xs` was written to the front of a buffer.
abbrev pub fill : Buffer → Buffer → At
fill xs blank = (length xs, xs ++ drop (length xs) blank)

drop_nil : (n : ℕ) → drop {A = ℕ} n [] ≡ []
drop_nil zero = refl
drop_nil (suc n) = refl

drop-drop : (m n : ℕ) (xs : Buffer) → drop m (drop n xs) ≡ drop (n + m) xs
drop-drop m zero xs = ap (λ k. drop k xs) (omega arith)
drop-drop m (suc n) [] = drop_nil m ∙ sym (drop_nil (suc n + m))
drop-drop m (suc n) (x ∷ xs) = drop-drop m n xs ∙ ap (λ k. drop k (x ∷ xs)) (suc_add n m)
  where
    suc_add : (a b : ℕ) → suc (a + b) ≡ suc a + b
    suc_add a b = omega arith

pub put_array-fill :
    (xs pre blank : Buffer)
    → length pre + length xs ≤ length blank
    → put_array xs (fill pre blank) ≡ fill (pre ++ xs) blank
unfolding put_array
put_array-fill xs pre blank h =
    ap (λ b. (length pre + length xs, b))
      (put_bytes-append xs pre (drop (length pre) blank)
          (omega (arith, length-drop (length pre) blank))
        ∙ ap (λ l. pre ++ (xs ++ l)) (drop-drop (length xs) (length pre) blank)
        ∙ sym (append_assoc pre xs (drop (length pre + length xs) blank)))
    ∙ ap (λ n. (n, (pre ++ xs) ++ drop n blank)) (sym (length-append pre xs))

pub put16-array : (v : ℕ) (a : At) → put16 v a ≡ put_array (bytes_16 v) a
unfolding put16 put_array
put16-array v (p, b) = rw (write_uint16-put_bytes v p b) refl

pub put32-array : (v : ℕ) (a : At) → put32 v a ≡ put_array (bytes_32 v) a
unfolding put32 put_array
put32-array v (p, b) = rw (write_uint32-put_bytes v p b) refl

pub put64-array : (v : ℕ) (a : At) → put64 v a ≡ put_array (bytes_64 v) a
unfolding put64 put_array
put64-array v (p, b) = rw (write_uint64-put_bytes v p b) refl

-- Putting bytes where they stand changes nothing.
put_same :
    (xs pre post : Buffer) → put_bytes xs (length pre) (pre ++ (xs ++ post)) ≡ pre ++ (xs ++ post)
put_same xs pre post =
    put_bytes-append xs pre (xs ++ post) (omega (arith, length-append xs post))
    ∙ ap (λ l. pre ++ (xs ++ l)) (drop-append xs post)
  where
    drop-append : (xs post : Buffer) → drop (length xs) (xs ++ post) ≡ post
    drop-append [] post = refl
    drop-append (x ∷ xs) post = drop-append xs post

room : (xs pre post : Buffer) → length pre + length xs ≤ length (pre ++ (xs ++ post))
room xs pre post = omega (arith, length-append pre (xs ++ post), length-append xs post)

pub read_uint16-append :
    (v : ℕ) (pre post : Buffer)
    → v < 2 ^ 16
    → read_uint16 (length pre) (pre ++ (bytes_16 v ++ post)) ≡ (v, 2)
read_uint16-append v pre post h =
    subst (λ b. read_uint16 (length pre) b ≡ (v, 2)) (put_same (bytes_16 v) pre post)
      (read_put_16 v (length pre) (pre ++ (bytes_16 v ++ post)) h (room (bytes_16 v) pre post))

pub read_uint32-append :
    (v : ℕ) (pre post : Buffer)
    → v < 2 ^ 32
    → read_uint32 (length pre) (pre ++ (bytes_32 v ++ post)) ≡ (v, 4)
read_uint32-append v pre post h =
    subst (λ b. read_uint32 (length pre) b ≡ (v, 4)) (put_same (bytes_32 v) pre post)
      (read_put_32 v (length pre) (pre ++ (bytes_32 v ++ post)) h (room (bytes_32 v) pre post))

pub read_uint64-append :
    (v : ℕ) (pre post : Buffer)
    → v < 2 ^ 64
    → read_uint64 (length pre) (pre ++ (bytes_64 v ++ post)) ≡ (v, 8)
read_uint64-append v pre post h =
    subst (λ b. read_uint64 (length pre) b ≡ (v, 8)) (put_same (bytes_64 v) pre post)
      (read_put_64 v (length pre) (pre ++ (bytes_64 v ++ post)) h (room (bytes_64 v) pre post))

at-append : (pre post : Buffer) (x : ℕ) → at (pre ++ x ∷ post) (length pre) ≡ x
at-append [] post x = refl
at-append (y ∷ pre) post x = at-append pre post x

pub get_bytes-append :
    (xs pre post : Buffer) → get_bytes (length xs) (length pre) (pre ++ (xs ++ post)) ≡ xs
unfolding get_bytes
get_bytes-append [] pre post = refl
get_bytes-append (x ∷ xs) pre post =
    ap (λ y. y ∷ get_bytes (length xs) (length pre + 1) (pre ++ (x ∷ (xs ++ post))))
      (at-append pre (xs ++ post) x)
    ∙ ap (λ l. x ∷ l)
        (ap (λ k. get_bytes (length xs) k (pre ++ (x ∷ (xs ++ post)))) (length-snoc pre x)
          ∙ ap (get_bytes (length xs) (length (pre ++ x ∷ [])))
              (sym (append_assoc pre (x ∷ []) (xs ++ post)))
          ∙ get_bytes-append xs (pre ++ x ∷ []) post)
