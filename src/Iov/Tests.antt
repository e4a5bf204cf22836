-- ===== src/Iov/Tests.antt =====
-- A copy at a fixed input.
use accelio.Prelude.{if◌then◌else◌, ℕ, ◌≡◌, some, [], ◌∷◌, length}
use accelio.Iov.{Copied, memcpyv}
use accelio.Iov.Copy.Steps.{concat}
use accelio.Iov.Copy.{memcpyv_copies}

-- Five bytes in three entries, to two entries of three bytes each.
memcpyv_copies_example :
    (c : Copied ℕ) × (memcpyv (3 ∷ 3 ∷ []) ((1 ∷ 2 ∷ []) ∷ [] ∷ (3 ∷ 4 ∷ 5 ∷ []) ∷ []) ≡ some c)
    × (concat c.written ≡ 1 ∷ 2 ∷ 3 ∷ 4 ∷ 5 ∷ [])
    × (length (concat c.written) ≡ (if c.complete then 5 else 6))
memcpyv_copies_example = memcpyv_copies 3 (3 ∷ []) (1 ∷ 2 ∷ []) ([] ∷ (3 ∷ 4 ∷ 5 ∷ []) ∷ [])
