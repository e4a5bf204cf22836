-- ===== src/Iov/Copy/Steps.antt =====
-- What one iteration of memcpyv does to the bytes that are written and to those that are left.
use mathlib.Core.List.{append_assoc}
use accelio.Prelude.{
  length-append, length-drop, ℕ, zero, suc, ◌+◌, ◌-◌, ◌≤◌, true, false, ◌≡◌, refl, sym, ap, ◌∙◌,
  List, [], ◌∷◌, ◌++◌, length, take, drop, arith,
}
use accelio.Iov.{Copied, stop}

abbrev pub sum : List ℕ → ℕ
sum [] = 0
sum (n ∷ ns) = n + sum ns

suc_add : (m n : ℕ) → suc m + n ≡ suc (m + n)
suc_add m n = omega arith

module _ {ℓ} {A : Type ℓ} where
  abbrev pub concat : List (List A) → List A
  concat [] = []
  concat (x ∷ xs) = x ++ concat xs

  pub append_nil : (xs : List A) → xs ++ [] ≡ xs
  append_nil [] = refl
  append_nil (x ∷ xs) = ap (λ l. x ∷ l) (append_nil xs)

  concat-snoc : (xs : List (List A)) (y : List A) → concat (xs ++ y ∷ []) ≡ concat xs ++ y
  concat-snoc [] y = append_nil y
  concat-snoc (x ∷ xs) y = ap (λ l. x ++ l) (concat-snoc xs y) ∙ sym (append_assoc x (concat xs) y)

  -- More than the first list is taken.
  take-append : (n : ℕ) (xs ys : List A) → take (length xs + n) (xs ++ ys) ≡ xs ++ take n ys
  take-append n [] ys = ap (λ k. take k ys) (omega arith)
  take-append n (x ∷ xs) ys =
      ap (λ k. take k (x ∷ (xs ++ ys))) (suc_add (length xs) n)
      ∙ ap (λ l. x ∷ l) (take-append n xs ys)

  -- A part of the first list is taken, and `n` more.
  take_split :
      (d n : ℕ) (xs ys : List A)
      → d ≤ length xs
      → take (d + n) (xs ++ ys) ≡ take d xs ++ take n (drop d xs ++ ys)
  take_split zero n xs ys h = ap (λ k. take k (xs ++ ys)) (omega arith)
  take_split (suc d) n [] ys h = absurd (omega arith)
  take_split (suc d) n (x ∷ xs) ys h =
      ap (λ k. take k (x ∷ (xs ++ ys))) (suc_add d n)
      ∙ ap (λ l. x ∷ l) (take_split d n xs ys (omega arith))

  take_nil : (n : ℕ) → take {A = A} n [] ≡ []
  take_nil zero = refl
  take_nil (suc n) = refl

  pub take_whole : (n : ℕ) (xs : List A) → length xs ≤ n → take n xs ≡ xs
  take_whole n [] h = take_nil n
  take_whole zero (x ∷ xs) h = absurd (omega arith)
  take_whole (suc n) (x ∷ xs) h = ap (λ l. x ∷ l) (take_whole n xs (omega arith))

  -- The result of the loop from a state on: the bytes that were written before, then as many of
  -- the others as the destination holds.
  pub record Copies (sb : List A) (srcs : List (List A)) (acc : List A) (dlen : ℕ) (dsts : List ℕ)
      (out : List (List A)) (c : Copied A) : Type ℓ where
    pub bytes : concat c.written ≡ concat out ++ (acc ++ take (dlen + sum dsts) (sb ++ concat srcs))
    pub whole : c.complete ≡ true → length sb + length (concat srcs) ≤ dlen + sum dsts
    pub full : c.complete ≡ false → dlen + sum dsts ≤ length sb + length (concat srcs)

  -- The last entry of the source ends in this entry of the destination.
  pub end_Copies :
      (sb acc : List A) (dlen : ℕ) (dsts : List ℕ) (out : List (List A))
      → length sb ≤ dlen
      → Copies sb [] acc dlen dsts out (stop (out ++ (acc ++ sb) ∷ []) dsts true)
  end_Copies sb acc dlen dsts out h = record {
    bytes =
        concat-snoc out (acc ++ sb)
        ∙ ap (λ l. concat out ++ (acc ++ l))
            (sym (
              take_whole (dlen + sum dsts) (sb ++ []) (omega (arith, length-append sb []))
              ∙ append_nil sb));
    whole = λ e. omega arith;
    full = λ e. ground (arith, e);
  }

  -- The source's entry ends, and the destination's entry has room left.
  pub short_Copies :
      (sb s : List A) (ss : List (List A)) (acc : List A) (dlen : ℕ) (dsts : List ℕ)
      (out : List (List A)) (c : Copied A)
      → length sb ≤ dlen
      → Copies s ss (acc ++ sb) (dlen - length sb) dsts out c
      → Copies sb (s ∷ ss) acc dlen dsts out c
  short_Copies sb s ss acc dlen dsts out c h k = record {
    bytes =
        k.bytes
        ∙ ap (λ l. concat out ++ l)
            (append_assoc acc sb (take n (s ++ concat ss)) ∙ ap (λ l. acc ++ l) more);
    whole = λ e. omega (arith, k.whole e, h, length-append s (concat ss));
    full = λ e. omega (arith, k.full e, h, length-append s (concat ss));
  }
    where
      n : ℕ
      n = dlen - length sb + sum dsts

      more : sb ++ take n (s ++ concat ss) ≡ take (dlen + sum dsts) (sb ++ (s ++ concat ss))
      more =
          sym (take-append n sb (s ++ concat ss))
          ∙ ap (λ k. take k (sb ++ (s ++ concat ss))) (omega (arith, h))

  -- The last entry of the destination is full.
  pub full_Copies :
      (sb : List A) (srcs : List (List A)) (acc : List A) (dlen : ℕ) (out : List (List A))
      → dlen ≤ length sb
      → Copies sb srcs acc dlen [] out (stop (out ++ (acc ++ take dlen sb) ∷ []) [] false)
  full_Copies sb srcs acc dlen out h = record {
    bytes =
        concat-snoc out (acc ++ take dlen sb)
        ∙ ap (λ l. concat out ++ (acc ++ l))
            (sym (append_nil (take dlen sb)) ∙ sym (take_split dlen 0 sb (concat srcs) h));
    whole = λ e. ground (arith, e);
    full = λ e. omega (arith, h);
  }

  -- The destination's entry is full, and the source's has bytes left.
  pub long_Copies :
      (sb : List A) (srcs : List (List A)) (acc : List A) (dlen d : ℕ) (ds : List ℕ)
      (out : List (List A)) (c : Copied A)
      → dlen ≤ length sb
      → Copies (drop dlen sb) srcs [] d ds (out ++ (acc ++ take dlen sb) ∷ []) c
      → Copies sb srcs acc dlen (d ∷ ds) out c
  long_Copies sb srcs acc dlen d ds out c h k = record {
    bytes =
        k.bytes
        ∙ ap (λ l. l ++ later) (concat-snoc out (acc ++ take dlen sb))
        ∙ append_assoc (concat out) (acc ++ take dlen sb) later
        ∙ ap (λ l. concat out ++ l)
            (append_assoc acc (take dlen sb) later
              ∙ ap (λ l. acc ++ l) (sym (take_split dlen (d + sum ds) sb (concat srcs) h)));
    whole = λ e. omega (arith, k.whole e, h, length-drop dlen sb);
    full = λ e. omega (arith, k.full e, h, length-drop dlen sb);
  }
    where
      later : List A
      later = take (d + sum ds) (drop dlen sb ++ concat srcs)

  -- Both end.
  pub even_Copies :
      (sb s : List A) (ss : List (List A)) (acc : List A) (dlen d : ℕ) (ds : List ℕ)
      (out : List (List A)) (c : Copied A)
      → dlen ≡ length sb
      → Copies s ss [] d ds (out ++ (acc ++ sb) ∷ []) c
      → Copies sb (s ∷ ss) acc dlen (d ∷ ds) out c
  even_Copies sb s ss acc dlen d ds out c h k = record {
    bytes =
        k.bytes
        ∙ ap (λ l. l ++ later) (concat-snoc out (acc ++ sb))
        ∙ append_assoc (concat out) (acc ++ sb) later
        ∙ ap (λ l. concat out ++ l)
            (append_assoc acc sb later
              ∙ ap (λ l. acc ++ l)
                  (sym (take-append (d + sum ds) sb (s ++ concat ss))
                    ∙ ap (λ k. take (k + (d + sum ds)) (sb ++ (s ++ concat ss))) (sym h)));
    whole = λ e. omega (arith, k.whole e, h, length-append s (concat ss));
    full = λ e. omega (arith, k.full e, h, length-append s (concat ss));
  }
    where
      later : List A
      later = take (d + sum ds) (s ++ concat ss)
