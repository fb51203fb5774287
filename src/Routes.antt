-- ===== src/Routes.antt =====
-- routes.rs: looking commands up and validating the tables at start-up.
pub mod Types
pub mod Validity
pub mod Tests
use rust_http3_gateway.Prelude.{
  Bool, true, false, not, String, List, [], ◌∷◌, Option, none, some, is_some, ◌==◌, find, retain,
  any, is_empty, trim, if◌then◌else◌,
}
use mathlib.Core.Option
use rust_http3_gateway.Registry.{command_registry_rows, relay_authorization_registry}
use Types.{
  RoutingClass, no_auth, gateway_local, relay_hotpath, backend_control, MessageSemanticType,
  is_relay_hotpath, is_technical, is_event, CommandSpec, RelayAuthorizationSpec,
  RelayAuthorizationEntry,
}

unfoldable pub command_registry : List CommandSpec
unfolding command_registry_rows
command_registry = command_registry_rows

-- The searches, over any tables; the gateway's are the two registries.
unfoldable pub find_command : List CommandSpec → String → Option CommandSpec
find_command rows command_type = find (λ spec. spec.command_name == command_type) rows

unfoldable pub find_authorization :
    List RelayAuthorizationEntry → String → Option RelayAuthorizationSpec
find_authorization entries command_type =
    Option.map (λ entry. entry.spec) (find (λ entry. entry.command_name == command_type) entries)

unfoldable pub resolve_command_spec : String → Option CommandSpec
unfolding command_registry find_command
resolve_command_spec command_type = find_command command_registry command_type

unfoldable pub resolve_message_type : String → Option MessageSemanticType
unfolding resolve_command_spec
resolve_message_type command_type =
    Option.map (λ spec. spec.message_type) (resolve_command_spec command_type)

unfoldable pub resolve_relay_authorization_spec : String → Option RelayAuthorizationSpec
unfolding relay_authorization_registry find_authorization
resolve_relay_authorization_spec command_type =
    find_authorization relay_authorization_registry command_type

-- The messages of `Err`, by what they report; the command is the one that the text names.
pub data RegistryError : Type 0 where
  empty_command_name : RegistryError
  duplicate_command event_command not_technical local_mirror relay_technical backend_technical
        backend_mirror missing_metadata empty_family empty_key_field foreign_metadata :
      String → RegistryError

pub data Verdict : Type 0 where
  valid : Verdict
  invalid : RegistryError → Verdict

-- The first check that fails decides.
infixr 20 ◌then_check◌
abbrev pub ◌then_check◌ : Verdict → Verdict → Verdict
valid then_check rest = rest
invalid e then_check rest = invalid e

abbrev pub forbid : Bool → RegistryError → Verdict
forbid true e = invalid e
forbid false e = valid

-- The `match` on the routing class.
unfoldable pub check_class : RoutingClass → CommandSpec → Verdict
check_class no_auth spec =
    forbid (not (is_technical spec.message_type)) (not_technical spec.command_name)
    then_check forbid spec.mirror_to_backend (local_mirror spec.command_name)
check_class gateway_local spec =
    forbid (not (is_technical spec.message_type)) (not_technical spec.command_name)
    then_check forbid spec.mirror_to_backend (local_mirror spec.command_name)
check_class relay_hotpath spec =
    forbid (is_technical spec.message_type) (relay_technical spec.command_name)
check_class backend_control spec =
    forbid (is_technical spec.message_type) (backend_technical spec.command_name)
    then_check forbid spec.mirror_to_backend (backend_mirror spec.command_name)

-- The first loop, with the names seen so far.
unfoldable pub check_rows : List String → List CommandSpec → Verdict
unfolding check_class
check_rows seen [] = valid
check_rows seen (spec ∷ rest) =
    forbid (is_empty (trim spec.command_name)) empty_command_name
    then_check forbid (any (λ name. name == spec.command_name) seen)
        (duplicate_command spec.command_name)
    then_check forbid (is_event spec.message_type) (event_command spec.command_name)
    then_check check_class spec.routing_class spec
    then_check check_rows (spec.command_name ∷ seen) rest

-- One round of the second loop, for the authorization data of a relay command.
unfoldable pub check_authorization : String → Option RelayAuthorizationSpec → Verdict
check_authorization name none = invalid (missing_metadata name)
check_authorization name (some auth_spec) =
    forbid (is_empty (trim auth_spec.command_family)) (empty_family name)
    then_check forbid (is_empty (trim auth_spec.operation_key_field)) (empty_key_field name)

module _ (entries : List RelayAuthorizationEntry) where
  unfoldable pub check_relays : List CommandSpec → Verdict
  unfolding check_authorization find_authorization
  check_relays [] = valid
  check_relays (spec ∷ rest) =
      check_authorization spec.command_name (find_authorization entries spec.command_name)
      then_check check_relays rest

  unfoldable pub check_others : List CommandSpec → Verdict
  unfolding find_authorization
  check_others [] = valid
  check_others (spec ∷ rest) =
      forbid (is_some (find_authorization entries spec.command_name))
        (foreign_metadata spec.command_name)
      then_check check_others rest

  unfoldable pub validate_tables : List CommandSpec → Verdict
  unfolding check_rows check_relays check_others
  validate_tables rows =
      check_rows [] rows
      then_check check_relays (retain (λ spec. is_relay_hotpath spec.routing_class) rows)
      then_check check_others (retain (λ spec. not (is_relay_hotpath spec.routing_class)) rows)

unfoldable pub validate_command_registry : Verdict
unfolding validate_tables command_registry relay_authorization_registry
validate_command_registry = validate_tables relay_authorization_registry command_registry
