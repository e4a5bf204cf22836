-- ===== src/Iov/Copy.antt =====
-- memcpyv beside a copy of the bytes in one piece.
pub mod Steps
use mathlib.Core.List.{append_assoc}
use Prim.Native.Nat.{min}
use accelio.Prelude.{
  length-append, length-drop, length-take, ℕ, zero, suc, ◌+◌, ◌-◌, ◌≤◌, ◌<◌, Bool, true, false, ◌≡◌,
  refl, sym, ap, ◌∙◌, Option, none, some, List, [], ◌∷◌, ◌++◌, if◌then◌else◌, ltb, length, take,
  drop, arith, Bool-cases, inl, inr, subst,
}
use accelio.Iov.{Copied, stop, copy_loop, memcpyv}
use accelio.Iov.Copy.Steps.{
  sum, concat, end_Copies, short_Copies, full_Copies, long_Copies, even_Copies, take_whole,
  append_nil, Copies,
}

-- What the tests of the loop say.
short_le : (m n : ℕ) → ltb m n ≡ true → m ≤ n
short_le m n h = ground (arith, h)

even_eq : (m n : ℕ) → ltb m n ≡ false → ltb n m ≡ false → n ≡ m
even_eq m n h k = ground (arith, h, k)

module _ {ℓ} {A : Type ℓ} where
  -- The state reaches a result that has copied what fits.
  abbrev Reaches :
      Option (Copied A) → List A → List (List A) → List A → ℕ → List ℕ → List (List A) → Type ℓ
  Reaches o sb srcs acc dlen dsts out =
      (c : Copied A) × (o ≡ some c) × Copies sb srcs acc dlen dsts out c

  even_full_Copies :
      (sb : List A) (srcs : List (List A)) (acc : List A) (dlen : ℕ) (out : List (List A))
      → dlen ≡ length sb
      → Copies sb srcs acc dlen [] out (stop (out ++ (acc ++ sb) ∷ []) [] false)
  even_full_Copies sb srcs acc dlen out h =
      subst (λ l. Copies sb srcs acc dlen [] out (stop (out ++ (acc ++ l) ∷ []) [] false))
        (take_whole dlen sb (omega (arith, h)))
        (full_Copies sb srcs acc dlen out (omega (arith, h)))

  copy_loop-Reaches :
      (fuel : ℕ) (sb : List A) (srcs : List (List A)) (acc : List A) (dlen : ℕ) (dsts : List ℕ)
      (out : List (List A))
      → length srcs + length dsts < fuel
      → Reaches (copy_loop fuel sb srcs acc dlen dsts out) sb srcs acc dlen dsts out
  unfolding copy_loop
  copy_loop-Reaches zero sb srcs acc dlen dsts out h = absurd (omega arith)
  copy_loop-Reaches (suc fuel) sb [] acc dlen [] out h = elim (Bool-cases (ltb (length sb) dlen)) [
    | inl a ↦ rw a (_, refl, end_Copies sb acc dlen [] out (short_le (length sb) dlen a))
    | inr a ↦ elim (Bool-cases (ltb dlen (length sb))) [
      | inl b ↦ rw (a, b) (_, refl, full_Copies sb [] acc dlen out (short_le dlen (length sb) b))
      | inr b ↦
          rw (a, b)
            (_, refl, end_Copies sb acc dlen [] out (omega (arith, even_eq (length sb) dlen a b)))
    ]
  ]
  copy_loop-Reaches (suc fuel) sb [] acc dlen (d ∷ ds) out h =
      let (c, r, k) =
        copy_loop-Reaches fuel (drop dlen sb) [] [] d ds (out ++ (acc ++ take dlen sb) ∷ [])
          (omega arith) in
      elim (Bool-cases (ltb (length sb) dlen)) [
        | inl a ↦ rw a (_, refl, end_Copies sb acc dlen (d ∷ ds) out (short_le (length sb) dlen a))
        | inr a ↦ elim (Bool-cases (ltb dlen (length sb))) [
          | inl b ↦
              rw (a, b)
                (c, r, long_Copies sb [] acc dlen d ds out c (short_le dlen (length sb) b) k)
          | inr b ↦
              rw (a, b)
                (
                  _,
                  refl,
                  end_Copies sb acc dlen (d ∷ ds) out (omega (arith, even_eq (length sb) dlen a b)),
                )
        ]
      ]
  copy_loop-Reaches (suc fuel) sb (s ∷ ss) acc dlen [] out h =
      let (c, r, k) =
        copy_loop-Reaches fuel s ss (acc ++ sb) (dlen - length sb) [] out (omega arith) in
      elim (Bool-cases (ltb (length sb) dlen)) [
        | inl a ↦
            rw a (c, r, short_Copies sb s ss acc dlen [] out c (short_le (length sb) dlen a) k)
        | inr a ↦ elim (Bool-cases (ltb dlen (length sb))) [
          | inl b ↦
              rw (a, b)
                (_, refl, full_Copies sb (s ∷ ss) acc dlen out (short_le dlen (length sb) b))
          | inr b ↦
              rw (a, b)
                (_, refl, even_full_Copies sb (s ∷ ss) acc dlen out (even_eq (length sb) dlen a b))
        ]
      ]
  copy_loop-Reaches (suc fuel) sb (s ∷ ss) acc dlen (d ∷ ds) out h =
      let (c1, r1, k1) =
        copy_loop-Reaches fuel s ss (acc ++ sb) (dlen - length sb) (d ∷ ds) out (omega arith) in
      let (c2, r2, k2) =
        copy_loop-Reaches fuel (drop dlen sb) (s ∷ ss) [] d ds (out ++ (acc ++ take dlen sb) ∷ [])
          (omega arith) in
      let (c3, r3, k3) =
        copy_loop-Reaches fuel s ss [] d ds (out ++ (acc ++ sb) ∷ []) (omega arith) in
      elim (Bool-cases (ltb (length sb) dlen)) [
        | inl a ↦
            rw a (
              c1,
              r1,
              short_Copies sb s ss acc dlen (d ∷ ds) out c1 (short_le (length sb) dlen a) k1,
            )
        | inr a ↦ elim (Bool-cases (ltb dlen (length sb))) [
          | inl b ↦
              rw (a, b)
                (
                  c2,
                  r2,
                  long_Copies sb (s ∷ ss) acc dlen d ds out c2 (short_le dlen (length sb) b) k2,
                )
          | inr b ↦
              rw (a, b)
                (c3, r3, even_Copies sb s ss acc dlen d ds out c3 (even_eq (length sb) dlen a b) k3)
        ]
      ]

  -- A copy between non-empty arrays ends within one iteration for each of their entries. The bytes
  -- it has written, taken together, are the bytes of the source up to what the destination holds;
  -- a copy that reports its end has copied all of them, one that reports 0 has filled the
  -- destination.
  pub memcpyv_copies :
      (d : ℕ) (ds : List ℕ) (s : List A) (ss : List (List A))
      → (c : Copied A) × (memcpyv (d ∷ ds) (s ∷ ss) ≡ some c)
        × (concat c.written ≡ take (sum (d ∷ ds)) (concat (s ∷ ss)))
        × (length (concat c.written)
            ≡ (if c.complete then length (concat (s ∷ ss)) else sum (d ∷ ds)))
  unfolding memcpyv
  memcpyv_copies d ds s ss =
      let (c, r, k) = copy_loop-Reaches (length ss + length ds + 1) s ss [] d ds [] (omega arith) in
      (
        c,
        r,
        k.bytes,
        ap length k.bytes ∙ elim (Bool-cases c.complete) [
          | inl e ↦ rw e (omega (arith, all, k.whole e))
          | inr e ↦ rw e (omega (arith, all, k.full e))
        ],
      )
    where
      all :
          (length (take (d + sum ds) (s ++ concat ss)) ≡ min (d + sum ds) (length (s ++ concat ss)))
          × (length (s ++ concat ss) ≡ length s + length (concat ss))
      all = (length-take (d + sum ds) (s ++ concat ss), length-append s (concat ss))
