-- ===== src/Caches/Nexus/Find.antt =====
-- What the search for a nexus finds, and the reference it takes.
use mathlib.Core.List.{append_assoc}
use accelio.Prelude.{
  u32, ℕ, ◌+◌, true, false, if◌then◌else◌, arith, ◌≡◌, refl, ap, ◌∙◌, Option, none, some, List, [],
  ◌∷◌, ◌++◌, Bool-cases, inl, inr,
}
use accelio.Table.{Entry, foreach}
use accelio.Caches.Nexus.{
  Nexus, Query, NexusCache, matches, addref, find_chain, find_list, nexus_cache_find,
}

-- None of the entries fits the query.
abbrev pub NoneFits : Query → List (Entry Nexus) → Type 0
NoneFits q [] = Unit
NoneFits q (e ∷ es) = (matches q e.var ≡ false) × NoneFits q es

-- `e'` is the entry `e` with one user more: with a reference more, or, when the nexus was about to
-- close or to try a reconnection, with the count at one and that work cancelled.
abbrev pub Referenced : Entry Nexus → Entry Nexus → Type 0
Referenced e e' =
    (e'.keycopy ≡ e.keycopy)
    × (e'.var.portal_uri ≡ e.var.portal_uri)
    × (e'.var.ctx ≡ e.var.ctx)
    × (e'.var.attr_tos ≡ e.var.attr_tos)
    × (e'.var.tos ≡ e.var.tos)
    × (e'.var.close_pending ≡ false)
    × (e'.var.refcount ≡ (if e.var.close_pending then 1 else u32 (e.var.refcount + 1)))

addref-Referenced : (e : Entry Nexus) → Referenced e (record e { var = addref e.var })
addref-Referenced e = elim (Bool-cases e.var.close_pending) [
  | inl p ↦ rw p (refl, refl, refl, refl, refl, refl, refl)
  | inr p ↦ (
    refl,
    ground (arith, p),
    ground (arith, p),
    ground (arith, p),
    ground (arith, p),
    ground (arith, p),
    ground (arith, p),
  )
]

-- `es'` is `es` but for the first entry that fits, which has one user more and the number found; nothing is found only where no entry fits.
abbrev pub Shares : Query → Option ℕ → List (Entry Nexus) → List (Entry Nexus) → Type 0
Shares q none es es' = NoneFits q es × (es' ≡ es)
Shares q (some id) es es' =
    (before : List (Entry Nexus)) × (e : Entry Nexus) × (after : List (Entry Nexus)) × (es
      ≡ before ++ e ∷ after)
    × NoneFits q before
    × (matches q e.var ≡ true)
    × (e.keycopy ≡ id)
    × (e' : Entry Nexus) × Referenced e e'
    × (es' ≡ before ++ e' ∷ after)

cons-Shares :
    (q : Query) (o : Option ℕ) (e : Entry Nexus) (es es' : List (Entry Nexus))
    → matches q e.var ≡ false
    → Shares q o es es'
    → Shares q o (e ∷ es) (e ∷ es')
cons-Shares q none e es es' h (n, p) = ((h, n), ap (λ l. e ∷ l) p)
cons-Shares q (some id) e es es' h (b, f, a, p, n, m, k, g, r, p') =
    (e ∷ b, f, a, ap (λ l. e ∷ l) p, (h, n), m, k, g, r, ap (λ l. e ∷ l) p')

find_chain-Shares :
    (q : Query) (es : List (Entry Nexus)) → Shares q (find_chain q es).0 es (find_chain q es).1
unfolding find_chain
find_chain-Shares q [] = (tt, refl)
find_chain-Shares q (e ∷ es) = elim (Bool-cases (matches q e.var)) [
  | inl h ↦
      rw h
        ([], e, es, refl, tt, h, refl, record e { var = addref e.var }, addref-Referenced e, refl)
  | inr h ↦
      rw h (cons-Shares q (find_chain q es).0 e es (find_chain q es).1 h (find_chain-Shares q es))
]

append-NoneFits :
    (q : Query) (xs ys : List (Entry Nexus)) → NoneFits q xs → NoneFits q ys → NoneFits q (xs ++ ys)
append-NoneFits q [] ys a b = b
append-NoneFits q (x ∷ xs) ys a b = (a.0, append-NoneFits q xs ys a.1 b)

-- What is found in a later chain.
prepend-Shares :
    (q : Query) (o : Option ℕ) (c es es' : List (Entry Nexus))
    → NoneFits q c
    → Shares q o es es'
    → Shares q o (c ++ es) (c ++ es')
prepend-Shares q o [] es es' n s = s
prepend-Shares q o (e ∷ c) es es' n s =
    cons-Shares q o e (c ++ es) (c ++ es') n.0 (prepend-Shares q o c es es' n.1 s)

-- What is found in an earlier one.
append-Shares :
    (q : Query) (id : ℕ) (c c' es : List (Entry Nexus))
    → Shares q (some id) c c'
    → Shares q (some id) (c ++ es) (c' ++ es)
append-Shares q id c c' es (b, e, a, p, n, m, k, g, r, p') = (
  b,
  e,
  a ++ es,
  ap (λ l. l ++ es) p ∙ append_assoc b (e ∷ a) es,
  n,
  m,
  k,
  g,
  r,
  ap (λ l. l ++ es) p' ∙ append_assoc b (g ∷ a) es,
)

find_list-Shares :
    (q : Query) (cs : List (List (Entry Nexus)))
    → Shares q (find_list q cs).0 (foreach cs) (foreach (find_list q cs).1)
unfolding find_list foreach
find_list-Shares q [] = (tt, refl)
find_list-Shares q (c ∷ cs) = go (find_chain q c) (find_chain-Shares q c) (find_list-Shares q cs)
  where
    go :
        (r : Option ℕ × List (Entry Nexus))
        → Shares q r.0 c r.1
        → Shares q (find_list q cs).0 (foreach cs) (foreach (find_list q cs).1)
        → let r' = elim r.0 as (λ x. Option ℕ × List (List (Entry Nexus))) [
          | some id ↦ (some id, r.1 ∷ cs)
          | none ↦ ((find_list q cs).0, c ∷ (find_list q cs).1)
        ] in
          Shares q r'.0 (c ++ foreach cs) (foreach r'.1)
    go (none, c') s later =
        prepend-Shares q (find_list q cs).0 c (foreach cs) (foreach (find_list q cs).1) s.0 later
    go (some id, c') s later = append-Shares q id c c' (foreach cs) s

-- A search that finds nothing leaves the cache as it was, and then no nexus of the cache fits the
-- query. One that finds a number changes just one nexus, that of the number, which fits as no nexus
-- does that the walk meets before it: it counts one user more, or, if a work of it was pending, one
-- user in all, and that work is cancelled.
pub find-Shares :
    (c : NexusCache) (q : Query)
    → let r = nexus_cache_find c q in
      Shares q r.0 (foreach c.nexus_cache.list) (foreach r.1.nexus_cache.list) × (r.1.cid ≡ c.cid)
unfolding nexus_cache_find
find-Shares c q = (find_list-Shares q c.nexus_cache.list, refl)
