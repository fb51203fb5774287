-- ===== src/Routes/Types.antt =====
-- routes.rs: the enumerations and records of the command tables.
use rust_http3_gateway.Prelude.{Bool, true, false, String}

pub data RoutingClass : Type 0 where
  no_auth gateway_local relay_hotpath backend_control : RoutingClass

unfoldable pub routing_class_as_str : RoutingClass → String
routing_class_as_str no_auth = "no_auth"
routing_class_as_str gateway_local = "gateway_local"
routing_class_as_str relay_hotpath = "relay_hotpath"
routing_class_as_str backend_control = "backend_control"

pub data MessageSemanticType : Type 0 where
  command query event signal technical : MessageSemanticType

unfoldable pub message_type_as_str : MessageSemanticType → String
message_type_as_str command = "command"
message_type_as_str query = "query"
message_type_as_str event = "event"
message_type_as_str signal = "signal"
message_type_as_str technical = "technical"

pub data RelayContextType : Type 0 where
  file_transfer_peer : RelayContextType

unfoldable pub context_type_as_str : RelayContextType → String
context_type_as_str file_transfer_peer = "file_transfer_peer"

pub data AudienceScopeMode : Type 0 where
  fixed_peer context_members explicit_subset : AudienceScopeMode

unfoldable pub scope_mode_as_str : AudienceScopeMode → String
scope_mode_as_str fixed_peer = "fixed_peer"
scope_mode_as_str context_members = "context_members"
scope_mode_as_str explicit_subset = "explicit_subset"

pub data RelayGuardClass : Type 0 where
  context_bound_peer : RelayGuardClass

unfoldable pub guard_class_as_str : RelayGuardClass → String
guard_class_as_str context_bound_peer = "context_bound_peer"

-- The derived equalities, and the patterns of `matches!`.
abbrev pub same_context_type : RelayContextType → RelayContextType → Bool
same_context_type file_transfer_peer file_transfer_peer = true

abbrev pub same_scope_mode : AudienceScopeMode → AudienceScopeMode → Bool
same_scope_mode fixed_peer fixed_peer = true
same_scope_mode context_members context_members = true
same_scope_mode explicit_subset explicit_subset = true
same_scope_mode _ _ = false

abbrev pub is_no_auth : RoutingClass → Bool
is_no_auth no_auth = true
is_no_auth _ = false

abbrev pub is_gateway_local : RoutingClass → Bool
is_gateway_local gateway_local = true
is_gateway_local _ = false

abbrev pub is_relay_hotpath : RoutingClass → Bool
is_relay_hotpath relay_hotpath = true
is_relay_hotpath _ = false

abbrev pub is_backend_control : RoutingClass → Bool
is_backend_control backend_control = true
is_backend_control _ = false

abbrev pub is_technical : MessageSemanticType → Bool
is_technical technical = true
is_technical _ = false

abbrev pub is_event : MessageSemanticType → Bool
is_event event = true
is_event _ = false

pub record RelayAuthorizationSpec : Type 0 where
  pub requires_relay_context : Bool
  pub relay_context_type : RelayContextType
  pub audience_scope_mode : AudienceScopeMode
  pub guard_class : RelayGuardClass
  pub command_family : String
  pub operation_key_field : String

pub record RelayAuthorizationEntry : Type 0 where
  pub command_name : String
  pub spec : RelayAuthorizationSpec

pub record CommandSpec : Type 0 where
  pub command_name : String
  pub routing_class : RoutingClass
  pub message_type : MessageSemanticType
  pub mirror_to_backend : Bool
