-- ===== src/Examples/Texts.antt =====
-- Router IDs at a concrete pool, a community and a label.
use k8gobgp.Prelude.{ℕ, ◌-◌, ◌^◌, ◌≡◌, ◌↔◌, none, some, List, [], ◌∷◌, length, ◌≤◌, arith}
use k8gobgp.RouterId.{net4, generated, masked, generate_router_id, validate_router_id_pool}
use k8gobgp.RouterId.Pool.{IsHost, generate_router_id-IsHost, validate_router_id_pool-generates}
use k8gobgp.Validation.{validate_community, accepted}
use k8gobgp.Validation.Communities.{IsCommunity, validate_community_iff}
use k8gobgp.Validation.Labels.{
  sanitize_label_value, IsCleanLabel, sanitize_label_value-IsCleanLabel, sanitize_log_message,
  IsOneLine, sanitize_log_message-IsOneLine,
}

-- "n1" in the pool 10.255.0.0/16.
generate_router_id-IsHost_example :
    (id : ℕ) × (generate_router_id (110 ∷ 49 ∷ []) (some (net4 184483840 16)) ≡ generated id)
    × IsHost (masked 16 184483840) (2 ^ (32 - 16)) id
generate_router_id-IsHost_example =
    generate_router_id-IsHost (110 ∷ 49 ∷ []) 184483840 16 (omega arith) (omega arith)

validate_router_id_pool-generates_example :
    (validate_router_id_pool (49 ∷ []) (some (net4 184483840 16)) ≡ none)
    ↔ ((id : ℕ) × (generate_router_id (110 ∷ []) (some (net4 184483840 16)) ≡ generated id))
validate_router_id_pool-generates_example =
    validate_router_id_pool-generates (110 ∷ []) (49 ∷ []) 184483840 16 (λ e. cc)

-- "65000:100"
abbrev community : List ℕ
community = 54 ∷ 53 ∷ 48 ∷ 48 ∷ 48 ∷ 58 ∷ 49 ∷ 48 ∷ 48 ∷ []

validate_community_iff_example : (validate_community community ≡ accepted) ↔ IsCommunity community
validate_community_iff_example = validate_community_iff community

-- A quote and a newline.
abbrev label : List ℕ
label = 97 ∷ 34 ∷ 10 ∷ []

sanitize_label_value-IsCleanLabel_example :
    IsCleanLabel (sanitize_label_value label)
    × (length (sanitize_label_value label) ≤ 128)
    × (IsCleanLabel label → length label ≤ 128 → sanitize_label_value label ≡ label)
sanitize_label_value-IsCleanLabel_example = sanitize_label_value-IsCleanLabel label

sanitize_log_message-IsOneLine_example :
    IsOneLine (sanitize_log_message label) × (length (sanitize_log_message label) ≤ 503)
sanitize_log_message-IsOneLine_example = sanitize_log_message-IsOneLine label
