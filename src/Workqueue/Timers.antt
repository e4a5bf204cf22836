-- ===== src/Workqueue/Timers.antt =====
-- src/usr/xio/xio_timers_list.h: delays in the order of their expiry, on a 64-bit clock that wraps.
pub mod Order
use accelio.Prelude.{
  sub_wrap, u64, ℕ, ◌+◌, ◌-◌, ◌*◌, ◌^◌, Bool, true, false, not, Option, none, some, List, [], ◌∷◌,
  if◌then◌else◌, ltb, leb, ◌==◌,
}

-- `struct xio_timers_list_entry` in its delayed work
pub record Timer : Type 0 where
  pub dwork : ℕ
  pub expires : ℕ  -- uint64_t

-- `(__s64)(a - b) < 0`
abbrev pub time_before64 : ℕ → ℕ → Bool
time_before64 a b = leb (2 ^ 63) (sub_wrap 64 a b)

abbrev pub time_after64 : ℕ → ℕ → Bool
time_after64 a b = time_before64 b a

-- `(__s64)(b - a) >= 0`
abbrev pub time_before_eq64 : ℕ → ℕ → Bool
time_before_eq64 a b = ltb (sub_wrap 64 b a) (2 ^ 63)

-- enum timers_list_rc
pub data TimersListRc : Type 0 where
  ok empty became_first_entry not_empty : TimersListRc

-- The walk of xio_timers_list_add: before the first entry that expires later.
unfoldable pub place : Timer → List Timer → List Timer
place t [] = t ∷ []
place t (e ∷ es) =
    let rest = place t es in if time_before64 t.expires e.expires then t ∷ e ∷ es else e ∷ rest

-- `list_first_entry(...) == tentry`
abbrev pub first_is : List Timer → Timer → Bool
first_is [] t = false
first_is (e ∷ es) t = e.dwork == t.dwork

-- xio_timers_list_add
unfoldable pub timers_list_add : List Timer → Timer → TimersListRc × List Timer
timers_list_add es t =
    let es' = place t es in (if first_is es' t then became_first_entry else ok, es')

-- xio_timers_list_add_duration: `now` is the reading of the clock
unfoldable pub timers_list_add_duration : List Timer → ℕ → ℕ → ℕ → TimersListRc × List Timer
timers_list_add_duration es now ns_duration dwork =
    timers_list_add es (record { dwork = dwork; expires = u64 (now + ns_duration) })

-- list_del_init of the entry of a delayed work
unfoldable pub unlink : List Timer → ℕ → List Timer
unlink [] dwork = []
unlink (e ∷ es) dwork = let rest = unlink es dwork in if e.dwork == dwork then es else e ∷ rest

abbrev pub emptiness : List Timer → TimersListRc
emptiness [] = empty
emptiness (e ∷ es) = not_empty

-- xio_timers_list_del
unfoldable pub timers_list_del : List Timer → ℕ → TimersListRc × List Timer
timers_list_del [] dwork = (empty, [])
timers_list_del (e ∷ es) dwork = let es' = unlink (e ∷ es) dwork in (emptiness es', es')

-- xio_timerlist_ns_duration_to_expire; `none` for -1
unfoldable pub ns_duration_to_expire : List Timer → ℕ → Option ℕ
ns_duration_to_expire [] now = none
ns_duration_to_expire (e ∷ es) now =
    if time_after64 now e.expires then some 0 else some (sub_wrap 64 e.expires now)
