-- ===== src/Wire/Store.antt =====
-- Bytes put one after another are read back one by one, and no other byte changes.
use accelio.Prelude.{
  ℕ, zero, suc, ◌+◌, ◌≤◌, ◌<◌, ◌≡◌, ◌⊎◌, refl, ◌∙◌, subst, [], ◌∷◌, arith, length, set, length-set,
  get_or-set_self, get_or-set_ne,
}
use mathlib.Core.Path.{ap₂}
use accelio.Wire.{Buffer, at, put_bytes, get_bytes}

pub length-put_bytes :
    (xs : Buffer) (k : ℕ) (buffer : Buffer) → length (put_bytes xs k buffer) ≡ length buffer
unfolding put_bytes
length-put_bytes [] k buffer = refl
length-put_bytes (x ∷ xs) k buffer =
    length-put_bytes xs (k + 1) (set buffer k x) ∙ length-set buffer k x

-- A position before or behind the written range.
abbrev pub Outside : ℕ → ℕ → ℕ → Type 0
Outside k n j = (j < k) ⊎ (k + n ≤ j)

pub at-put_bytes-Outside :
    (xs : Buffer) (k j : ℕ) (buffer : Buffer)
    → Outside k (length xs) j
    → at (put_bytes xs k buffer) j ≡ at buffer j
unfolding put_bytes
at-put_bytes-Outside [] k j buffer h = refl
at-put_bytes-Outside (x ∷ xs) k j buffer h =
    at-put_bytes-Outside xs (k + 1) j (set buffer k x) (omega arith)
    ∙ get_or-set_ne buffer k j x 0 (omega arith)

at-put_bytes_first :
    (xs : Buffer) (x k : ℕ) (buffer : Buffer)
    → k < length buffer
    → at (put_bytes xs (k + 1) (set buffer k x)) k ≡ x
at-put_bytes_first xs x k buffer h =
    at-put_bytes-Outside xs (k + 1) k (set buffer k x) (omega arith)
    ∙ get_or-set_self buffer k x 0 h

-- The byte `j` of what was put at `k` stands at `k + j`.
pub at-put_bytes :
    (xs : Buffer) (k j p : ℕ) (buffer : Buffer)
    → k + length xs ≤ length buffer
    → j < length xs
    → p ≡ k + j
    → at (put_bytes xs k buffer) p ≡ at xs j
unfolding put_bytes
at-put_bytes [] k j p buffer h l e = absurd (omega arith)
at-put_bytes (x ∷ xs) k zero p buffer h l e =
    subst (λ q. at (put_bytes xs (k + 1) (set buffer k x)) q ≡ x) (omega arith)
      (at-put_bytes_first xs x k buffer (omega arith))
at-put_bytes (x ∷ xs) k (suc j) p buffer h l e =
    at-put_bytes xs (k + 1) j p (set buffer k x) (omega (arith, length-set buffer k x))
      (omega arith) (omega arith)

pub get_bytes-put_bytes :
    (xs : Buffer) (k : ℕ) (buffer : Buffer)
    → k + length xs ≤ length buffer
    → get_bytes (length xs) k (put_bytes xs k buffer) ≡ xs
unfolding put_bytes get_bytes
get_bytes-put_bytes [] k buffer h = refl
get_bytes-put_bytes (x ∷ xs) k buffer h =
    ap₂ ◌∷◌ (at-put_bytes_first xs x k buffer (omega arith))
      (get_bytes-put_bytes xs (k + 1) (set buffer k x) (omega (arith, length-set buffer k x)))
