-- ===== src/Pools/Objects.antt =====
-- The pool of objects of one size (src/common/xio_objpool.c).
pub mod Ledger
use accelio.Prelude.{
  ℕ, zero, suc, ◌+◌, ◌-◌, Bool, true, false, Option, none, some, List, [], ◌∷◌, ◌++◌, if◌then◌else◌,
  u64, u32, leb, ◌^◌, ◌*◌,
}
use accelio.Prelude.Counts.{remove}

-- struct xio_objpool: objects are the numbers of their xio_mem_obj; `next` is the first number not
-- yet used, `chunks_list` holds the number of objects of each chunk.
pub record Pool : Type 0 where
  pub free_list : List ℕ
  pub used_list : List ℕ
  pub chunks_list : List ℕ
  pub grow_nr : ℕ
  pub total_nr : ℕ
  pub next : ℕ

-- The loop of xio_objpool_realloc: each object of the chunk goes to the head of the list.
unfoldable pub chain : ℕ → ℕ → List ℕ → List ℕ
chain obj zero free_list = free_list
chain obj (suc n) free_list = chain (obj + 1) n (obj ∷ free_list)

-- An `int`, by its 32 bits, as a 64-bit number.
abbrev pub extend : ℕ → ℕ
extend n = if leb (2 ^ 31) n then n + 2 ^ 64 - 2 ^ 32 else n

-- xio_objpool_realloc; `n` is the bits of an `int`, which the loop counts down to 0, and `memory`
-- whether there is memory for the chunk
unfoldable pub realloc : Pool → ℕ → Bool → Bool × Pool
realloc p n memory =
    let q = record p { total_nr = u64 (p.total_nr + extend n) } in
    if memory
    then (
      true,
      record q {
        chunks_list = n ∷ q.chunks_list;
        free_list = chain q.next n q.free_list;
        next = q.next + n;
      },
    )
    else (false, q)

-- xio_objpool_create, when there is memory for the pool itself; the numbers are the bits of `int`s
unfoldable pub create : ℕ → ℕ → Bool → Option Pool
create init_nr grow_nr memory =
    let p : Pool = record {
      free_list = [];
      used_list = [];
      chunks_list = [];
      grow_nr = extend grow_nr;
      total_nr = 0;
      next = 1;
    } in
    let (done, q) = realloc p init_nr memory in if done then some q else none

-- The first free object, moved to the head of the used ones.
unfoldable pub take_first : Pool → Pool × Option ℕ
take_first p = elim p.free_list [
  | [] ↦ (p, none)
  | o ∷ os ↦ (record p { free_list = os; used_list = o ∷ p.used_list }, some o)
]

-- xio_objpool_alloc, which passes grow_nr on as an `int`
unfoldable pub alloc : Pool → Bool → Pool × Option ℕ
alloc p memory = elim p.free_list [
  | [] ↦
      let (done, q) = realloc p (u32 p.grow_nr) memory in if done then take_first q else (q, none)
  | o ∷ os ↦ take_first p
]

-- xio_objpool_free; the object is in one of the two lists, which list_move takes it out of
unfoldable pub free : Pool → Option ℕ → Pool
free p none = p
free p (some o) = record p {
  used_list = remove o p.used_list;
  free_list = o ∷ remove o p.free_list;
}
