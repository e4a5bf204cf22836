-- ===== src/Uri.antt =====
-- src/common/xio_utils.c: the parts of an address such as `rdma://1.0.0.1:1234/x`. A string is the
-- list of its bytes before the terminator. A pointer into a string is the pair of what stands before
-- it and what it points to. Lengths are those of strings shorter than 2 ^ 31 bytes.
pub mod Split
mod Tests
use accelio.Prelude.{
  ℕ, ◌+◌, Bool, true, false, ◌&&◌, Option, none, some, List, [], ◌∷◌, ◌++◌, if◌then◌else◌, ltb,
  ◌==◌, length, take, drop, zero, suc,
}

abbrev pub colon : ℕ
colon = 58

abbrev pub slash : ℕ
slash = 47

abbrev pub separator : List ℕ
separator = colon ∷ slash ∷ slash ∷ []

-- `[` and `]:` of an IPv6 address
abbrev pub bracket : ℕ
bracket = 91

abbrev pub closing : List ℕ
closing = 93 ∷ colon ∷ []

abbrev pub Pointer : Type 0
Pointer = List ℕ × List ℕ

abbrev pub begins : List ℕ → List ℕ → Bool
begins [] s = true
begins (c ∷ p) [] = false
begins (c ∷ p) (d ∷ s) = (c == d) && begins p s

abbrev pub later : List ℕ → Option Pointer → Option Pointer
later s none = none
later s (some (before, rest)) = some (s ++ before, rest)

-- strstr and strchr
unfoldable pub strstr : List ℕ → List ℕ → Option Pointer
strstr [] p = none
strstr (c ∷ s) p = if begins p (c ∷ s) then some ([], c ∷ s) else later (c ∷ []) (strstr s p)

unfoldable pub strchr : List ℕ → ℕ → Option Pointer
strchr s c = strstr s (c ∷ [])

abbrev pub add_byte : ℕ → Option (List ℕ) → Option (List ℕ)
add_byte c none = none
add_byte c (some s) = some (c ∷ s)

-- The loop of xio_uri_get_proto, over what stands before the pointer `end`.
unfoldable pub copy_proto : ℕ → List ℕ → Option (List ℕ)
copy_proto zero s = none
copy_proto (suc n) [] = some []
copy_proto (suc n) (c ∷ s) = add_byte c (copy_proto n s)

abbrev pub proto_at : Option Pointer → ℕ → Option (List ℕ)
proto_at none n = none
proto_at (some (before, rest)) n = copy_proto n before

-- xio_uri_get_proto
unfoldable pub uri_get_proto : List ℕ → ℕ → Option (List ℕ)
uri_get_proto uri proto_len = proto_at (strstr uri separator) proto_len

-- The loop from the end of the string back, in which the last slash that it meets counts.
unfoldable pub back_to_slash : List ℕ → Option Pointer
back_to_slash [] = none
back_to_slash (c ∷ s) = if c == slash then some ([], c ∷ s) else later (c ∷ []) (back_to_slash s)

abbrev pub after_port : Option Pointer → Option Pointer
after_port none = none
after_port (some (before, rest)) = later (before ++ take 2 rest) (strchr (drop 2 rest) slash)

-- The host and what follows it: the first byte of a host is skipped, or is the bracket of IPv6.
unfoldable pub resource_at : List ℕ → Option Pointer
resource_at host = later (take 1 host) (
    if begins (bracket ∷ []) host
    then after_port (strstr (drop 1 host) closing)
    else back_to_slash (drop 1 host))

abbrev pub after_separator : Option Pointer → Option Pointer
after_separator none = none
after_separator (some (before, rest)) = later (before ++ take 3 rest) (resource_at (drop 3 rest))

-- xio_uri_get_resource_ptr
unfoldable pub uri_get_resource_ptr : List ℕ → Option Pointer
uri_get_resource_ptr uri = after_separator (strstr uri separator)

-- A string of fewer than `n` bytes, for which there is room with its terminator.
abbrev pub fits : ℕ → List ℕ → Option (List ℕ)
fits n s = if ltb (length s) n then some s else none

abbrev pub portal_at : List ℕ → Option Pointer → ℕ → Option (List ℕ)
portal_at uri none n = fits n uri
portal_at uri (some (portal, resource)) n = fits n portal

-- xio_uri_get_portal
unfoldable pub uri_get_portal : List ℕ → ℕ → Option (List ℕ)
uri_get_portal uri portal_len = portal_at uri (uri_get_resource_ptr uri) portal_len

abbrev pub text_at : Option Pointer → ℕ → Option (List ℕ)
text_at none n = none
text_at (some (portal, resource)) n = fits n resource

-- xio_uri_get_resource
unfoldable pub uri_get_resource : List ℕ → ℕ → Option (List ℕ)
uri_get_resource uri resource_len = text_at (uri_get_resource_ptr uri) resource_len
