-- ===== src/Caches/Sessions.antt =====
-- src/common/xio_sessions_cache.c: the sessions by their numbers.
pub mod Numbers
pub mod Wrap
use accelio.Prelude.{u32, ℕ, ◌+◌, Bool, true, false, Option, none, some}
use accelio.Table.{Table, init, lookup, insert, remove}
use accelio.Table.Hash.{int32_hash}

-- The table and the static `sid` of xio_sessions_cache_add; a session is what stands for its
-- address.
pub record SessionsCache {ℓ} (S : Type ℓ) : Type ℓ where
  pub sessions_cache : Table S
  pub sid : ℕ  -- uint32_t

-- HASHTABLE_PRIME_SMALL
abbrev pub prime_small : ℕ
prime_small = 149

module _ {ℓ} {S : Type ℓ} where
  -- sessions_cache_construct; `sid` starts at 0
  abbrev pub sessions_cache_construct : SessionsCache S
  sessions_cache_construct = record { sessions_cache = init prime_small int32_hash; sid = 0 }

  -- sessions_cache_add with `sid`, whose outcome decides on `sid++`; the number is given back, or
  -- `none` for -1
  add_numbered : SessionsCache S → S → Option S → Option ℕ × SessionsCache S
  add_numbered c session (some s) = (none, c)
  add_numbered c session none = (
    some c.sid,
    record { sessions_cache = insert c.sessions_cache c.sid session; sid = u32 (c.sid + 1) },
  )

  unfoldable pub sessions_cache_add : SessionsCache S → S → Option ℕ × SessionsCache S
  unfolding add_numbered
  sessions_cache_add c session = add_numbered c session (lookup c.sessions_cache c.sid)

  remove_found : SessionsCache S → ℕ → Option S → Bool × SessionsCache S
  remove_found c session_id none = (false, c)
  remove_found c session_id (some s) =
      (true, record c { sessions_cache = remove c.sessions_cache session_id })

  -- xio_sessions_cache_remove: `true` for 0
  unfoldable pub sessions_cache_remove : SessionsCache S → ℕ → Bool × SessionsCache S
  unfolding remove_found
  sessions_cache_remove c session_id =
      remove_found c session_id (lookup c.sessions_cache session_id)

  -- xio_sessions_cache_lookup: `none` for NULL
  abbrev pub sessions_cache_lookup : SessionsCache S → ℕ → Option S
  sessions_cache_lookup c session_id = lookup c.sessions_cache session_id
