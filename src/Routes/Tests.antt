-- ===== src/Routes/Tests.antt =====
-- The command tables on concrete names.
use rust_http3_gateway.Prelude.{◌↔◌, ◌≡◌, refl, true, [], ◌∷◌}
use rust_http3_gateway.Registry.{relay_authorization_registry, file_transfer_peer_context}
use rust_http3_gateway.Routes.Types.{CommandSpec, relay_hotpath, command}
use rust_http3_gateway.Routes.{
  validate_tables, valid, resolve_command_spec, resolve_relay_authorization_spec,
}
use rust_http3_gateway.Routes.Validity.{
  AreTablesValid, IsResolved, IsFileTransfer, validate_tables_iff, resolve_command_spec-IsResolved,
  resolve_relay_authorization_spec-IsFileTransfer,
}

abbrev accept_row : CommandSpec
accept_row = record {
  command_name = "file_transfer_accept";
  routing_class = relay_hotpath;
  message_type = command;
  mirror_to_backend = true;
}

validate_tables_iff_example :
    (validate_tables relay_authorization_registry (accept_row ∷ []) ≡ valid)
    ↔ AreTablesValid relay_authorization_registry (accept_row ∷ [])
validate_tables_iff_example = validate_tables_iff relay_authorization_registry (accept_row ∷ [])

resolve_command_spec-IsResolved_example :
    IsResolved relay_authorization_registry "file_transfer_accept" accept_row
unfolding resolve_command_spec
resolve_command_spec-IsResolved_example =
    resolve_command_spec-IsResolved "file_transfer_accept" accept_row refl

resolve_relay_authorization_spec-IsFileTransfer_example :
    IsFileTransfer "file_transfer_accept" file_transfer_peer_context
unfolding resolve_relay_authorization_spec
resolve_relay_authorization_spec-IsFileTransfer_example =
    resolve_relay_authorization_spec-IsFileTransfer "file_transfer_accept"
      file_transfer_peer_context refl
