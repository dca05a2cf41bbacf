-- ===== src/RouterId/Template.antt =====
-- controllers/router_id_resolution.go: resolveRouterIDTemplate, with annotationPattern as a function on the
-- bytes of the text.
use k8gobgp.Prelude.{
  ℕ, Bool, true, false, ◌&&◌, ◌||◌, Option, none, some, List, [], ◌∷◌, ◌==◌, nat_eq, list_eq,
  if◌then◌else◌, leb, ltb, length,
}
use k8gobgp.Prelude.Text.{utf8}
use k8gobgp.RouterId.{internal_ip, external_ip, first_ipv4}
use k8gobgp.RouterId.NodeCache.{Node}

pub data TemplateError : Type 0 where
  no_address unsupported key_too_long key_characters annotation_missing annotation_empty :
      TemplateError

pub data Template : Type 0 where
  value : List ℕ → Template
  template_error : TemplateError → Template

-- strings.HasPrefix, with what follows the prefix.
unfoldable pub after_prefix : List ℕ → List ℕ → Option (List ℕ)
after_prefix [] s = some s
after_prefix (p ∷ ps) [] = none
after_prefix (p ∷ ps) (c ∷ s) = if p == c then after_prefix ps s else none

cons_some : ℕ → Option (List ℕ) → Option (List ℕ)
cons_some c none = none
cons_some c (some s) = some (c ∷ s)

-- What stands before the suffix, where the text ends with it.
before_suffix : List ℕ → List ℕ → Option (List ℕ)
unfolding cons_some
before_suffix suffix [] = if suffix == [] then some [] else none
before_suffix suffix (c ∷ s) =
    let rest = before_suffix suffix s in if suffix == c ∷ s then some [] else cons_some c rest

is_alphanumeric : ℕ → Bool
is_alphanumeric c = leb b'a' c && leb c b'z' || leb b'A' c && leb c b'Z' || leb b'0' c && leb c b'9'

is_key_byte : ℕ → Bool
unfolding is_alphanumeric
is_key_byte c = is_alphanumeric c || c == b'.' || c == b'_' || c == b'/' || c == b'-'

-- What follows the first byte of a key: nothing, or bytes of a key of which the last is alphanumeric.
key_tail : List ℕ → Bool
unfolding is_alphanumeric is_key_byte
key_tail [] = true
key_tail (c ∷ []) = is_alphanumeric c
key_tail (c ∷ d ∷ s) = is_key_byte c && key_tail (d ∷ s)

unfoldable pub is_annotation_key : List ℕ → Bool
unfolding key_tail is_alphanumeric
is_annotation_key [] = false
is_annotation_key (c ∷ s) = is_alphanumeric c && key_tail s

key_between : Option (List ℕ) → Option (List ℕ)
unfolding is_annotation_key
key_between none = none
key_between (some key) = if is_annotation_key key then some key else none

-- annotationPattern.FindStringSubmatch: the key.
unfoldable pub annotation_key : List ℕ → Option (List ℕ)
unfolding after_prefix before_suffix key_between
annotation_key template = elim (after_prefix (utf8 "${node.annotations['") template) [
  | none ↦ none
  | some rest ↦ key_between (before_suffix (utf8 "']}") rest)
]

abbrev max_annotation_key_length : ℕ
max_annotation_key_length = 253

annotation : List ℕ → List (List ℕ × List ℕ) → Option (List ℕ)
annotation key [] = none
annotation key ((k, v) ∷ rest) = if k == key then some v else annotation key rest

-- strings.ContainsAny(key, "\x00\n\r")
contains_control : List ℕ → Bool
contains_control [] = false
contains_control (c ∷ s) = c == 0 || c == 10 || c == 13 || contains_control s

annotation_value : Option (List ℕ) → Template
annotation_value none = template_error annotation_missing
annotation_value (some []) = template_error annotation_empty
annotation_value (some (c ∷ s)) = value (c ∷ s)

from_annotation : Node → Option (List ℕ) → Template
unfolding annotation annotation_value contains_control
from_annotation node none = template_error unsupported
from_annotation node (some key) =
    if ltb max_annotation_key_length (length key)
    then template_error key_too_long
    else if contains_control key
    then template_error key_characters
    else annotation_value (annotation key node.annotations)

from_address : Option (List ℕ) → Template
from_address none = template_error no_address
from_address (some address) = value address

module _ (parse_ipv6 : List ℕ → Option (List ℕ)) where
  unfoldable pub resolve_router_id_template : List ℕ → Node → Template
  unfolding annotation_key from_annotation from_address
  resolve_router_id_template template node =
      if template == utf8 "${NODE_IP}" || template == utf8 "${NODE_IPV4}"
      then from_address (first_ipv4 parse_ipv6 internal_ip node.addresses)
      else if template == utf8 "${NODE_EXTERNAL_IP}"
      then from_address (first_ipv4 parse_ipv6 external_ip node.addresses)
      else from_annotation node (annotation_key template)
