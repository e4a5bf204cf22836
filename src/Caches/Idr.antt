-- ===== src/Caches/Idr.antt =====
-- src/common/xio_idr.c: the set of live objects.
pub mod Refine
use accelio.Prelude.{ℕ, Bool, true, false, ◌&&◌, Option, none, some, List, if◌then◌else◌, ◌==◌}
use accelio.Table.{Table, init, lookup, insert, remove}
use accelio.Table.Hash.{int64_hash}

-- `struct xio_idr_entry`: the key is the object's address; `name` is what kstrdup gave, `none` for
-- NULL.
abbrev pub Idr : Type 0
Idr = Table (Option ℕ)

-- HASHTABLE_PRIME_MEDIUM
abbrev pub prime_medium : ℕ
prime_medium = 977

-- xio_idr_create; a failing kcalloc gives NULL
abbrev pub idr_create : Bool → Option Idr
idr_create memory = if memory then some (init prime_medium int64_hash) else none

abbrev pub is_some {ℓ} : {A : Type ℓ} → Option A → Bool
is_some none = false
is_some (some a) = true

-- xio_idr_remove_uobj: `true` for 0, `false` for -1
unfoldable pub remove_uobj : Option Idr → ℕ → Bool × Option Idr
remove_uobj none uobj = (false, none)
remove_uobj (some idr) uobj =
    if uobj == 0
    then (false, some idr)
    else if is_some (lookup idr uobj)
    then (true, some (remove idr uobj))
    else (false, some idr)

-- xio_idr_lookup_uobj: `true` for 1
unfoldable pub lookup_uobj : Option Idr → ℕ → Bool
lookup_uobj none uobj = false
lookup_uobj (some idr) uobj = if uobj == 0 then false else is_some (lookup idr uobj)

-- xio_idr_add_uobj: `memory` is whether kcalloc gives an entry
unfoldable pub add_uobj : Option Idr → ℕ → Option ℕ → Bool → Bool × Option Idr
add_uobj none uobj name memory = (false, none)
add_uobj (some idr) uobj name memory =
    if uobj == 0
    then (false, some idr)
    else if memory
    then (if is_some (lookup idr uobj)
        then (false, some idr)
        else (true, some (insert idr uobj name)))
    else (false, some idr)
