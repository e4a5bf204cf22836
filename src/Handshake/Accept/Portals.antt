-- ===== src/Handshake/Accept/Portals.antt =====
-- The strings of a response, written by a loop and read by one.
use mathlib.Core.List.{append_assoc}
use accelio.Prelude.{
  u16, ℕ, zero, suc, ◌+◌, ◌^◌, ◌≤◌, ◌<◌, ◌≡◌, refl, sym, ap, ◌∙◌, List, [], ◌∷◌, ◌++◌, length, take,
  arith, length-append, subst,
}
use accelio.Wire.{Buffer, read_uint16, get_bytes}
use accelio.Wire.Integers.{bytes_16}
use accelio.Handshake.{put16, put_array, put_portals, portals_len, get_portals}
use accelio.Handshake.Fields.{
  fill, put_array-fill, put16-array, read_uint16-append, get_bytes-append,
}
use accelio.Handshake.Request.{put_field}

-- The portals as they stand in the message.
abbrev pub strings : List Buffer → Buffer
strings [] = []
strings (s ∷ ss) = bytes_16 (length s) ++ (s ++ strings ss)

pub length-strings : (ss : List Buffer) → length (strings ss) ≡ portals_len ss
length-strings [] = refl
length-strings (s ∷ ss) = omega (arith, length-append s (strings ss), length-strings ss)

short : (n : ℕ) → n < 2 ^ 16 → u16 n ≡ n
short n h = omega arith

append_nil : (l : Buffer) → l ++ [] ≡ l
append_nil [] = refl
append_nil (x ∷ l) = ap (λ r. x ∷ r) (append_nil l)

take_all : (n : ℕ) (xs : Buffer) → length xs ≡ n → take n xs ≡ xs
take_all zero [] h = refl
take_all zero (x ∷ xs) h = absurd (omega (arith, h))
take_all (suc n) [] h = absurd (omega (arith, h))
take_all (suc n) (x ∷ xs) h = ap (λ l. x ∷ l) (take_all n xs (omega (arith, h)))

pub put_portals-fill :
    (ss : List Buffer) (pre blank : Buffer)
    → portals_len ss < 2 ^ 16
    → length pre + portals_len ss ≤ length blank
    → put_portals ss (fill pre blank) ≡ fill (pre ++ strings ss) blank
unfolding put_portals
put_portals-fill [] pre blank r h = ap (λ l. fill l blank) (sym (append_nil pre))
put_portals-fill (s ∷ ss) pre blank r h =
    let n = length s in
    let pre1 = pre ++ bytes_16 n in
    ap (λ m. put_portals ss (put_array (take m s) (put16 m (fill pre blank))))
      (short n (omega (arith, r)))
    ∙ ap (λ l. put_portals ss (put_array l (put16 n (fill pre blank)))) (take_all n s refl)
    ∙ ap (λ a. put_portals ss (put_array s a))
        (put_field (put16 n) (bytes_16 n) pre blank (put16-array n) (omega (arith, h)))
    ∙ ap (put_portals ss)
        (put_array-fill s pre1 blank (omega (arith, h, length-append pre (bytes_16 n))))
    ∙ put_portals-fill ss (pre1 ++ s) blank (omega (arith, r))
        (omega (arith, h, length-append pre1 s, length-append pre (bytes_16 n)))
    ∙ ap (λ l. fill l blank)
        (append_assoc pre1 s (strings ss) ∙ append_assoc pre (bytes_16 n) (s ++ strings ss))

-- One string of the loop.
get_portals_step :
    (s : Buffer) (ss : List Buffer) (p q : ℕ) (b : Buffer)
    → read_uint16 p b ≡ (length s, 2)
    → get_bytes (length s) (p + 2) b ≡ s
    → get_portals (length ss) (p + 2 + length s) b ≡ (ss, q)
    → get_portals (suc (length ss)) p b ≡ (s ∷ ss, q)
unfolding get_portals
get_portals_step s ss p q b e1 e2 e3 = rw (e1, e2, e3) refl

pub get_portals-append :
    (ss : List Buffer) (pre post : Buffer)
    → portals_len ss < 2 ^ 16
    → get_portals (length ss) (length pre) (pre ++ (strings ss ++ post))
      ≡ (ss, length pre + portals_len ss)
unfolding get_portals
get_portals-append [] pre post h = ap (λ n. ([], n)) (omega arith)
get_portals-append (s ∷ ss) pre post h =
    get_portals_step s ss (length pre) (length pre + portals_len (s ∷ ss)) b
      (read_uint16-append (length s) pre ((s ++ strings ss) ++ post) (omega (arith, h)))
      (subst (λ k. get_bytes (length s) k b ≡ s) (length-append pre (bytes_16 (length s)))
        (subst (λ l. get_bytes (length s) (length pre1) l ≡ s) assoc1
          (get_bytes-append s pre1 (strings ss ++ post))))
      (ap (λ k. get_portals (length ss) k b)
          (omega (arith, length-append pre1 s, length-append pre (bytes_16 (length s))))
        ∙ ap (get_portals (length ss) (length (pre1 ++ s))) (sym assoc2)
        ∙ get_portals-append ss (pre1 ++ s) post (omega (arith, h))
        ∙ ap (λ k. (ss, k))
            (omega (arith, length-append pre1 s, length-append pre (bytes_16 (length s)))))
  where
    pre1 : Buffer
    pre1 = pre ++ bytes_16 (length s)

    b : Buffer
    b = pre ++ (strings (s ∷ ss) ++ post)

    assoc1 : pre1 ++ (s ++ (strings ss ++ post)) ≡ b
    assoc1 =
        append_assoc pre (bytes_16 (length s)) (s ++ (strings ss ++ post))
        ∙ ap (λ l. pre ++ (bytes_16 (length s) ++ l)) (sym (append_assoc s (strings ss) post))

    assoc2 : (pre1 ++ s) ++ (strings ss ++ post) ≡ b
    assoc2 = append_assoc pre1 s (strings ss ++ post) ∙ assoc1

-- There are no more portals than bytes.
pub length_le : (ss : List Buffer) → length ss ≤ portals_len ss
length_le [] = omega arith
length_le (s ∷ ss) = omega (arith, length_le ss)
