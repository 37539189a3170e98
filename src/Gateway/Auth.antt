-- ===== src/Gateway/Auth.antt =====
-- backend/src/gateway/auth.rs, and the reading of the keys in gateway/mod.rs.
pub mod Keys
use xend.Common.{
  Bool, true, false, List, [], ◌∷◌, Option, none, some, map, any, select, not, if◌then◌else◌,
}
use xend.Common.Text.{Text, text, text_eq, strip_prefix, trim, split, is_empty}

-- The set of keys is a list; `HashSet::contains`.
abbrev pub has_member : List Text → Text → Bool
has_member keys key = any (λ k. text_eq k key) keys

abbrev pub presents : List Text → Option Text → Bool
presents keys none = false
presents keys (some key) = has_member keys (trim key)

abbrev pub bearer : Option Text → Option Text
bearer none = none
bearer (some header) = strip_prefix (text "Bearer ") header

unfoldable pub is_authorized : List Text → Option Text → Bool
is_authorized [] auth_header = true
is_authorized (k ∷ ks) auth_header = presents (k ∷ ks) (bearer auth_header)

-- The value of `XEND_API_KEYS`, empty if it is not set.
unfoldable pub parse_api_keys : Text → List Text
parse_api_keys env = select (λ k. not (is_empty k)) (map trim (split b',' env))
