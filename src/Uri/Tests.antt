-- ===== src/Uri/Tests.antt =====
-- Addresses taken apart.
use accelio.Prelude.{◌≡◌, refl, ℕ, none, some, List, [], ◌∷◌}
use accelio.Uri.{
  strstr, strchr, copy_proto, uri_get_proto, back_to_slash, resource_at, uri_get_resource_ptr,
  uri_get_portal, uri_get_resource,
}

-- `tcp://h:1/x/y`
abbrev with_resource : List ℕ
with_resource = 116 ∷ 99 ∷ 112 ∷ 58 ∷ 47 ∷ 47 ∷ 104 ∷ 58 ∷ 49 ∷ 47 ∷ 120 ∷ 47 ∷ 121 ∷ []

proto : uri_get_proto with_resource 4 ≡ some (116 ∷ 99 ∷ 112 ∷ [])
unfolding uri_get_proto strstr copy_proto
proto = refl

-- There is no room for the terminator.
proto_too_long : uri_get_proto with_resource 3 ≡ none
unfolding uri_get_proto strstr copy_proto
proto_too_long = refl

resource : uri_get_resource with_resource 8 ≡ some (47 ∷ 120 ∷ 47 ∷ 121 ∷ [])
unfolding uri_get_resource uri_get_resource_ptr strstr back_to_slash resource_at
resource = refl

-- `r://[:]:1/x`
abbrev ipv6 : List ℕ
ipv6 = 114 ∷ 58 ∷ 47 ∷ 47 ∷ 91 ∷ 58 ∷ 93 ∷ 58 ∷ 49 ∷ 47 ∷ 120 ∷ []

ipv6_portal : uri_get_portal ipv6 64 ≡ some (114 ∷ 58 ∷ 47 ∷ 47 ∷ 91 ∷ 58 ∷ 93 ∷ 58 ∷ 49 ∷ [])
unfolding uri_get_portal uri_get_resource_ptr strstr strchr resource_at
ipv6_portal = refl

-- A slash right after `://` is passed over: `r:///x/y` has the resource `/y`.
passed_over :
    uri_get_resource (114 ∷ 58 ∷ 47 ∷ 47 ∷ 47 ∷ 120 ∷ 47 ∷ 121 ∷ []) 8 ≡ some (47 ∷ 121 ∷ [])
unfolding uri_get_resource uri_get_resource_ptr strstr back_to_slash resource_at
passed_over = refl
