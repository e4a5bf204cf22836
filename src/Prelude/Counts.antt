-- ===== src/Prelude/Counts.antt =====
-- Lists seen as counts: how often a number stands in a list, and the first of its places removed.
use Prim.Native.Nat.{ℕ, zero, suc, ◌+◌, ◌-◌, ◌<◌}
use mathlib.Core.Path.{◌≡◌, refl, ap}
use mathlib.Core.List.{List, [], ◌∷◌, ◌++◌}
use native.Mathlib.Omega.{arith}
use accelio.Prelude.Tests.{ltb, leb, ◌==◌, if◌then◌else◌}
use accelio.Prelude.Lists.{length}

abbrev pub times : ℕ → List ℕ → ℕ
times x [] = 0
times x (w ∷ ws) = let rest = times x ws in if w == x then suc rest else rest

-- list_del of an entry
abbrev pub remove : ℕ → List ℕ → List ℕ
remove x [] = []
remove x (w ∷ ws) = let rest = remove x ws in if w == x then ws else w ∷ rest

-- `n` numbers from `a` on
abbrev pub addresses : ℕ → ℕ → List ℕ
addresses a zero = []
addresses a (suc n) = a ∷ addresses (a + 1) n

pub times-append : (x : ℕ) (xs ys : List ℕ) → times x (xs ++ ys) ≡ times x xs + times x ys
times-append x [] ys = omega arith
times-append x (w ∷ ws) ys = ground (arith, times-append x ws ys)

pub times-remove :
    (x y : ℕ) (xs : List ℕ)
    → times x (remove y xs) ≡ (if x == y then times x xs - 1 else times x xs)
times-remove x y [] = ground arith
times-remove x y (w ∷ ws) = ground (arith, times-remove x y ws)

pub length-remove : (y : ℕ) (xs : List ℕ) → 0 < times y xs → length (remove y xs) ≡ length xs - 1
length-remove y [] h = absurd (omega arith)
length-remove y (w ∷ []) h = ground arith
length-remove y (w ∷ v ∷ ws) h = ground (arith, length-remove y (v ∷ ws))

pub length-positive : (t : ℕ) (ts : List ℕ) → 0 < times t ts → 0 < length ts
length-positive t [] h = h
length-positive t (u ∷ r) h = omega arith

pub remove_absent : (y : ℕ) (xs : List ℕ) → times y xs ≡ 0 → remove y xs ≡ xs
remove_absent y [] h = refl
remove_absent y (w ∷ ws) h = ground (arith, remove_absent y ws)

pub length-addresses : (a n : ℕ) → length (addresses a n) ≡ n
length-addresses a zero = refl
length-addresses a (suc n) = ap suc (length-addresses (a + 1) n)

pub times-addresses :
    (x a n : ℕ) → times x (addresses a n) ≡ (if leb a x then if ltb x (a + n) then 1 else 0 else 0)
times-addresses x a zero = ground arith
times-addresses x a (suc n) = ground (arith, times-addresses x (a + 1) n)
