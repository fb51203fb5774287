-- ===== src/State/Types.antt =====
-- state.rs: the records of the shared state, its constants and its error type.
use rust_http3_gateway.Prelude.{ℕ, ◌*◌, ℤ, Bool, true, false, String, List, [], Option, none, Map}
use rust_http3_gateway.Routes.Types.{AudienceScopeMode, RelayContextType}

pub data OutboundMessage : Type 0 where
  text : String → OutboundMessage
  close : (code : ℕ) (reason : String) → OutboundMessage

pub record DispatchResult : Type 0 where
  pub attempted_count : ℕ
  pub enqueued_count : ℕ

pub record PendingMessage : Type 0 where
  pub text : String
  pub enqueued_at : ℤ
  pub sticky_key : Option String

pub record RequestRoute : Type 0 where
  pub connection_id : String
  pub user_id : String
  pub updated_at : ℤ

pub record ReadyConnection : Type 0 where
  pub user_id : String
  pub ready_at : ℤ

abbrev pub pending_max_per_subject : ℕ
pending_max_per_subject = 256

abbrev pub pending_ttl_seconds : ℕ
pending_ttl_seconds = 30

abbrev pub request_route_ttl_seconds : ℕ
request_route_ttl_seconds = 120

abbrev pub request_route_max : ℕ
request_route_max = 8192

abbrev pub relay_context_ttl_seconds : ℕ
relay_context_ttl_seconds = 24 * 60 * 60

abbrev pub relay_replay_ttl_seconds : ℕ
relay_replay_ttl_seconds = 10 * 60

abbrev pub relay_replay_cache_max : ℕ
relay_replay_cache_max = 200_000

abbrev pub relay_rate_window_seconds : ℕ
relay_rate_window_seconds = 1

abbrev pub relay_rate_limit_default : ℕ
relay_rate_limit_default = 240

abbrev pub relay_chunk_ciphertext_max_bytes : ℕ
relay_chunk_ciphertext_max_bytes = 2_000_000

pub data RelayContextState : Type 0 where
  opened active revoked closed policy_version_bumped : RelayContextState

unfoldable pub is_relay_permitted : RelayContextState → Bool
is_relay_permitted active = true
is_relay_permitted _ = false

pub record RelayGrant : Type 0 where
  pub grant_id : String
  pub policy_version : ℕ
  pub issued_at : ℤ
  pub expires_at : ℤ

pub record RelayAudienceScope : Type 0 where
  pub mode : AudienceScopeMode
  pub peers : List String

pub record RelayOperationContext : Type 0 where
  pub context_id : String
  pub operation_key : String
  pub operation_class : String
  pub context_type : RelayContextType
  pub state : RelayContextState
  pub authorized_subject : String
  pub audience_scope : RelayAudienceScope
  pub allowed_command_families : List String
  pub policy_version : ℕ
  pub grant : RelayGrant
  pub opened_at : ℤ
  pub updated_at : ℤ
  pub expires_at : ℤ

pub record RelayContextSnapshot : Type 0 where
  pub subject_email : String
  pub context_type : RelayContextType
  pub policy_version : ℕ
  pub contexts : List RelayOperationContext
  pub received_at : ℤ

pub record RelaySubjectContexts : Type 0 where
  pub context_type : RelayContextType
  pub policy_version : ℕ
  pub updated_at : ℤ
  pub contexts : List RelayOperationContext

pub record RelayAuthDecision : Type 0 where
  pub context_id : String
  pub policy_version : ℕ

pub data RelayAuthError : Type 0 where
  missing_context sender_binding_invalid scope_violation : RelayAuthError
  context_state_invalid : RelayContextState → RelayAuthError
  grant_expired grant_invalid policy_version_mismatch replay_detected : RelayAuthError
  rate_limited payload_too_large : RelayAuthError

unfoldable pub code : RelayAuthError → String
code missing_context = "relay_context_missing"
code sender_binding_invalid = "relay_sender_binding_invalid"
code scope_violation = "relay_scope_violation"
code (context_state_invalid revoked) = "relay_context_revoked"
code (context_state_invalid closed) = "relay_context_closed"
code (context_state_invalid policy_version_bumped) = "relay_context_policy_version_bumped"
code (context_state_invalid opened) = "relay_context_not_active"
code (context_state_invalid active) = "relay_context_invalid_state"
code grant_expired = "relay_grant_expired"
code grant_invalid = "relay_grant_invalid"
code policy_version_mismatch = "relay_policy_version_mismatch"
code replay_detected = "relay_replay_detected"
code rate_limited = "relay_rate_limited"
code payload_too_large = "relay_payload_too_large"

pub record RelayReplayEntry : Type 0 where
  pub seen_at : ℤ

pub record RelayRateCounter : Type 0 where
  pub window_start : ℤ
  pub count : ℕ

pub record ConnectionInfo : Type 0 where
  pub connection_id : String
  pub user_id : String
  pub client_instance_id : String
  pub subjects : List String
  pub connected_at : ℤ
  pub last_seen_at : ℤ

-- The sending half of a channel is the number of its channel.
pub record ConnectionHandle : Type 0 where
  pub info : ConnectionInfo
  pub sender : ℕ

-- `next_channel` numbers the channels that are opened; `sent` is what the channels took, in order.
pub record GatewayState : Type 0 where
  pub connections : Map ConnectionHandle
  pub subjects : Map (List String)
  pub pending_by_subject : Map (List PendingMessage)
  pub request_routes : Map RequestRoute
  pub relay_contexts_by_subject : Map RelaySubjectContexts
  pub relay_replay_cache : Map RelayReplayEntry
  pub relay_rate_counters : Map RelayRateCounter
  pub ready_connections : Map ReadyConnection
  pub max_connections_per_user : Option ℕ
  pub next_channel : ℕ
  pub sent : List (ℕ × OutboundMessage)

unfoldable pub new : Option ℕ → GatewayState
new max = record {
  connections = [];
  subjects = [];
  pending_by_subject = [];
  request_routes = [];
  relay_contexts_by_subject = [];
  relay_replay_cache = [];
  relay_rate_counters = [];
  ready_connections = [];
  max_connections_per_user = max;
  next_channel = 0;
  sent = [];
}

-- `Default`.
unfoldable pub default_state : GatewayState
unfolding new
default_state = new none
