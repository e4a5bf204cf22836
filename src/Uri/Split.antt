-- ===== src/Uri/Split.antt =====
-- An address is its portal and its resource.
use accelio.Prelude.{
  ◌⊎◌, ℕ, ◌≡◌, refl, ◌∙◌, ap, Option, none, some, List, [], ◌∷◌, ◌++◌, subst, zero, suc, take, drop,
  Bool-cases, inl, inr, arith, ◌==◌,
}
use accelio.Uri.{
  Pointer, begins, later, strstr, strchr, back_to_slash, after_port, resource_at, after_separator,
  uri_get_resource_ptr, fits, slash, bracket, closing, separator, copy_proto,
}

append_assoc : (xs ys zs : List ℕ) → (xs ++ ys) ++ zs ≡ xs ++ (ys ++ zs)
append_assoc [] ys zs = refl
append_assoc (x ∷ xs) ys zs = ap (λ s. x ∷ s) (append_assoc xs ys zs)

take-drop : (n : ℕ) (s : List ℕ) → take n s ++ drop n s ≡ s
take-drop zero s = refl
take-drop (suc n) [] = refl
take-drop (suc n) (c ∷ s) = ap (λ s. c ∷ s) (take-drop n s)

-- A pointer into `s`.
abbrev pub Splits : List ℕ → Option Pointer → Type 0
Splits s none = Unit
Splits s (some (before, rest)) = before ++ rest ≡ s

later-Splits : (p s : List ℕ) (o : Option Pointer) → Splits s o → Splits (p ++ s) (later p o)
later-Splits p s none h = tt
later-Splits p s (some (before, rest)) h = append_assoc p before rest ∙ ap (λ t. p ++ t) h

strstr-Splits : (s p : List ℕ) → Splits s (strstr s p)
unfolding strstr
strstr-Splits [] p = tt
strstr-Splits (c ∷ s) p = elim (Bool-cases (begins p (c ∷ s))) [
  | inl e ↦ rw e refl
  | inr e ↦ rw e (later-Splits (c ∷ []) s (strstr s p) (strstr-Splits s p))
]

back_to_slash-Splits : (s : List ℕ) → Splits s (back_to_slash s)
unfolding back_to_slash
back_to_slash-Splits [] = tt
back_to_slash-Splits (c ∷ s) = elim (Bool-cases (c == slash)) [
  | inl e ↦ rw e refl
  | inr e ↦ rw e (later-Splits (c ∷ []) s (back_to_slash s) (back_to_slash-Splits s))
]

-- A pointer into what follows `n` bytes of the rest.
further :
    (n : ℕ) (s before rest : List ℕ) (o : Option Pointer)
    → before ++ rest ≡ s
    → Splits (drop n rest) o
    → Splits s (later (before ++ take n rest) o)
further n s before rest o h k =
    subst (λ t. Splits t (later (before ++ take n rest) o))
      (append_assoc before (take n rest) (drop n rest)
        ∙ ap (λ t. before ++ t) (take-drop n rest)
        ∙ h)
      (later-Splits (before ++ take n rest) (drop n rest) o k)

after_port-Splits : (s : List ℕ) (o : Option Pointer) → Splits s o → Splits s (after_port o)
unfolding strchr
after_port-Splits s none h = tt
after_port-Splits s (some (before, rest)) h =
    further 2 s before rest (strstr (drop 2 rest) (slash ∷ [])) h
      (strstr-Splits (drop 2 rest) (slash ∷ []))

resource_at-Splits : (s : List ℕ) → Splits s (resource_at s)
unfolding resource_at
resource_at-Splits s = elim (Bool-cases (begins (bracket ∷ []) s)) [
  | inl e ↦ rw e (
      further 1 s [] s (after_port (strstr (drop 1 s) closing)) refl (
        after_port-Splits (drop 1 s) (strstr (drop 1 s) closing)
          (strstr-Splits (drop 1 s) closing)))
  | inr e ↦
      rw e (further 1 s [] s (back_to_slash (drop 1 s)) refl (back_to_slash-Splits (drop 1 s)))
]

after_separator-Splits :
    (s : List ℕ) (o : Option Pointer) → Splits s o → Splits s (after_separator o)
after_separator-Splits s none h = tt
after_separator-Splits s (some (before, rest)) h =
    further 3 s before rest (resource_at (drop 3 rest)) h (resource_at-Splits (drop 3 rest))

-- The pointer to the resource of an address points into the address.
pub resource_ptr-Splits : (uri : List ℕ) → Splits uri (uri_get_resource_ptr uri)
unfolding uri_get_resource_ptr
resource_ptr-Splits uri =
    after_separator-Splits uri (strstr uri separator) (strstr-Splits uri separator)

-- The portal and the resource that are read of an address make it up.
abbrev pub Parts : List ℕ → Option (List ℕ) → Option (List ℕ) → Type 0
Parts uri p r =
    (portal : List ℕ) × (p ≡ some portal)
    × (((r ≡ none) × (portal ≡ uri))
        ⊎ ((resource : List ℕ) × (r ≡ some resource) × (portal ++ resource ≡ uri)))

-- The loop copies the protocol when there is room for it and its terminator, and fails otherwise.
pub copy_proto-fits : (n : ℕ) (s : List ℕ) → copy_proto n s ≡ fits n s
unfolding copy_proto
copy_proto-fits zero s = ground arith
copy_proto-fits (suc n) [] = ground arith
copy_proto-fits (suc n) (c ∷ s) = rw (copy_proto-fits n s) (ground arith)
