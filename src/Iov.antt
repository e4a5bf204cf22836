-- ===== src/Iov.antt =====
-- src/common/xio_utils.c: arrays of buffers (`struct xio_iovec`). A source entry is given by the
-- bytes at its base, a destination entry by its length; the entries do not overlap.
pub mod Copy
mod Tests
use accelio.Prelude.{
  ℕ, zero, suc, ◌+◌, ◌-◌, Bool, true, false, Option, none, some, List, [], ◌∷◌, ◌++◌, map,
  if◌then◌else◌, ltb, length, take, drop,
}

-- What memcpyv leaves: the entries that it wrote, whose lengths become their new `iov_len`, the
-- lengths of those it did not reach, and whether it came to the end of the source.
pub record Copied {ℓ} (A : Type ℓ) : Type ℓ where
  pub written : List (List A)
  pub untouched : List ℕ
  pub complete : Bool

module _ {ℓ} {A : Type ℓ} where
  -- memclonev and memclonev_ex: the entries of `dst` after the call, and how many were copied
  unfoldable pub memclonev : List A → List A → ℕ × List A
  memclonev dst [] = (0, dst)
  memclonev [] src = (0, [])
  memclonev (d ∷ dst) (s ∷ src) = let (n, rest) = memclonev dst src in (suc n, s ∷ rest)

  -- xio_iov_length
  abbrev pub iov_length : List (List A) → ℕ
  iov_length [] = 0
  iov_length (x ∷ xs) = length x + iov_length xs

  abbrev pub stop : List (List A) → List ℕ → Bool → Copied A
  stop w u c = record { written = w; untouched = u; complete = c }

  -- The loop. `sb` is what is left of the source's entry, of `slen` bytes, `srcs` the entries after
  -- it; `acc` is what was written to the destination's entry, of `dst_len` bytes, `dlen` what is
  -- left of it, `dsts` the entries after it.
  unfoldable pub copy_loop :
      ℕ → List A → List (List A) → List A → ℕ → List ℕ → List (List A) → Option (Copied A)
  copy_loop zero sb srcs acc dlen dsts out = none
  copy_loop (suc fuel) sb srcs acc dlen dsts out =
      let short : Option (Copied A) = elim srcs [
        | [] ↦ some (stop (out ++ (acc ++ sb) ∷ []) dsts true)
        | s ∷ ss ↦ copy_loop fuel s ss (acc ++ sb) (dlen - length sb) dsts out
      ] in
      let long : Option (Copied A) = elim dsts [
        | [] ↦ some (stop (out ++ (acc ++ take dlen sb) ∷ []) [] false)
        | d ∷ ds ↦ copy_loop fuel (drop dlen sb) srcs [] d ds (out ++ (acc ++ take dlen sb) ∷ [])
      ] in
      let even : Option (Copied A) = elim srcs [
        | [] ↦ some (stop (out ++ (acc ++ sb) ∷ []) dsts true)
        | s ∷ ss ↦ elim dsts [
          | [] ↦ some (stop (out ++ (acc ++ sb) ∷ []) [] false)
          | d ∷ ds ↦ copy_loop fuel s ss [] d ds (out ++ (acc ++ sb) ∷ [])
        ]
      ] in
      if ltb (length sb) dlen then short else if ltb dlen (length sb) then long else even

  -- memcpyv and memcpyv_ex. Each iteration leaves an entry of the source or of the destination
  -- behind, so their number is fuel enough. An empty array is refused.
  unfoldable pub memcpyv : List ℕ → List (List A) → Option (Copied A)
  memcpyv [] srcs = some (stop [] [] false)
  memcpyv (d ∷ ds) [] = some (stop [] (d ∷ ds) false)
  memcpyv (d ∷ ds) (s ∷ ss) = copy_loop (length ss + length ds + 1) s ss [] d ds []

  -- What memcpyv returns.
  abbrev pub memcpyv_result : Copied A → ℕ
  memcpyv_result c = if c.complete then length c.written else 0
