-- ===== src/Registry.antt =====
-- project/command_registry.rs: COMMAND_REGISTRY, in five parts in the order of the source, and
-- RELAY_AUTHORIZATION_REGISTRY. Each row is one `CommandSpec` literal.
use rust_http3_gateway.Prelude.{Bool, true, false, String, List, [], ◌∷◌, ◌++◌}
use rust_http3_gateway.Routes.Types.{
  CommandSpec, RoutingClass, no_auth, gateway_local, relay_hotpath, backend_control,
  MessageSemanticType, command, query, signal, technical, RelayAuthorizationSpec,
  RelayAuthorizationEntry, file_transfer_peer, fixed_peer, context_bound_peer,
}

abbrev row : String → RoutingClass → MessageSemanticType → Bool → CommandSpec
row name class kind mirror = record {
  command_name = name;
  routing_class = class;
  message_type = kind;
  mirror_to_backend = mirror;
}

abbrev auth_to_file_key_wrap : List CommandSpec
auth_to_file_key_wrap =
    row "auth" no_auth technical false
    ∷ row "auth_login_request" no_auth technical false
    ∷ row "auth_register_request" no_auth technical false
    ∷ row "auth_identity_request" no_auth technical false
    ∷ row "user_vault_init" backend_control command false
    ∷ row "user_vault_fetch" backend_control query false
    ∷ row "user_vault_update_password" backend_control command false
    ∷ row "user_vault_update_recovery" backend_control command false
    ∷ row "user_vault_update_user_key" backend_control command false
    ∷ row "user_identity_key_register" backend_control command false
    ∷ row "user_identity_key_list" backend_control query false
    ∷ row "user_identity_key_revoke" backend_control command false
    ∷ row "user_identity_vault_register" backend_control command false
    ∷ row "user_identity_vault_revoke" backend_control command false
    ∷ row "user_device_vault_fetch" backend_control query false
    ∷ row "user_device_vault_register" backend_control command false
    ∷ row "conversation_key_init" backend_control command false
    ∷ row "conversation_key_fetch" backend_control query false
    ∷ row "session_ready" backend_control signal false
    ∷ row "device_pairing_endpoint_create" backend_control command false
    ∷ row "device_pairing_register_device" backend_control command false
    ∷ row "device_pairing_request" backend_control command false
    ∷ row "device_pairing_approve" backend_control command false
    ∷ row "device_pairing_reject" backend_control command false
    ∷ row "file_key_wrap" backend_control command false
    ∷ []

abbrev file_key_fetch_to_upload_init : List CommandSpec
file_key_fetch_to_upload_init =
    row "file_key_fetch" backend_control query false
    ∷ row "dropbox_public_auth" no_auth technical false
    ∷ row "device_pairing_auth" no_auth technical false
    ∷ row "ping" gateway_local technical false
    ∷ row "bootstrap_request" backend_control query false
    ∷ row "online_request" backend_control query false
    ∷ row "users_request" backend_control query false
    ∷ row "mls_key_package_publish" backend_control command false
    ∷ row "mls_key_package_fetch" backend_control query false
    ∷ row "contact_unblock" backend_control command false
    ∷ row "contacts_request" backend_control query false
    ∷ row "notifications_request" backend_control query false
    ∷ row "notification_ack" backend_control command false
    ∷ row "notification_seen" backend_control command false
    ∷ row "notification_dismiss" backend_control command false
    ∷ row "contact_profiles_request" backend_control query false
    ∷ row "attachment_upload_init" backend_control command false
    ∷ row "attachment_upload_chunk" backend_control command false
    ∷ row "attachment_upload_finalize" backend_control command false
    ∷ row "audit_timeline_request" backend_control query false
    ∷ row "audit_timeline_export_request" backend_control query false
    ∷ row "attachment_download_chunk" backend_control query false
    ∷ row "attachment_list_request" backend_control query false
    ∷ row "attachment_delete_request" backend_control command false
    ∷ row "user_storage_upload_init" backend_control command false
    ∷ []

abbrev upload_payload_to_conversations : List CommandSpec
upload_payload_to_conversations =
    row "user_storage_upload_payload" backend_control command false
    ∷ row "user_storage_upload_finalize" backend_control command false
    ∷ row "user_storage_download" backend_control query false
    ∷ row "user_storage_list_request" backend_control query false
    ∷ row "user_storage_delete_request" backend_control command false
    ∷ row "user_storage_share_link_create" backend_control command false
    ∷ row "user_storage_share_links_request" backend_control query false
    ∷ row "user_storage_share_link_revoke" backend_control command false
    ∷ row "user_storage_share_info_request" backend_control query false
    ∷ row "user_storage_share_download" backend_control query false
    ∷ row "contact_add" backend_control command false
    ∷ row "contact_accept" backend_control command false
    ∷ row "contact_block" backend_control command false
    ∷ row "contact_profile_upsert" backend_control command false
    ∷ row "contact_profile_delete" backend_control command false
    ∷ row "deadman_config_request" backend_control command false
    ∷ row "deadman_config_upsert" backend_control command false
    ∷ row "dropbox_endpoints_request" backend_control query false
    ∷ row "dropbox_endpoint_upsert" backend_control command false
    ∷ row "dropbox_endpoint_delete" backend_control command false
    ∷ row "dropbox_messages_request" backend_control query false
    ∷ row "dropbox_message_delete" backend_control command false
    ∷ row "dropbox_public_info_request" backend_control query false
    ∷ row "dropbox_public_submit" backend_control command false
    ∷ row "chat_conversations_request" backend_control query false
    ∷ []

abbrev conversation_open_to_media_key : List CommandSpec
conversation_open_to_media_key =
    row "chat_conversation_open" backend_control command false
    ∷ row "chat_messages_request" backend_control query false
    ∷ row "group_create" backend_control command false
    ∷ row "group_add" backend_control command false
    ∷ row "group_leave" backend_control command false
    ∷ row "group_membership_accept" backend_control command false
    ∷ row "history_clear" backend_control command false
    ∷ row "identity_profile_request" backend_control query false
    ∷ row "identity_profile_upsert" backend_control command false
    ∷ row "key_trust_list_request" backend_control query false
    ∷ row "key_trust_upsert" backend_control command false
    ∷ row "key_trust_delete" backend_control command false
    ∷ row "mls_commit" backend_control command false
    ∷ row "mls_welcome_request" backend_control command false
    ∷ row "mls_welcome_ack" backend_control command false
    ∷ row "presence_state" backend_control signal false
    ∷ row "chat_typing_state" backend_control signal false
    ∷ row "signal" backend_control signal false
    ∷ row "chat_message_read" backend_control command false
    ∷ row "call_token_request" backend_control query false
    ∷ row "call_session_create" backend_control command false
    ∷ row "call_session_invite" backend_control command false
    ∷ row "call_session_join" backend_control command false
    ∷ row "call_session_leave" backend_control command false
    ∷ row "call_session_media_key" backend_control signal false
    ∷ []

abbrev session_mute_to_message_send : List CommandSpec
session_mute_to_message_send =
    row "call_session_mute" backend_control signal false
    ∷ row "call_session_camera" backend_control signal false
    ∷ row "call_session_token_request" backend_control query false
    ∷ row "call_invite" backend_control command false
    ∷ row "call_join" backend_control command false
    ∷ row "call_leave" backend_control command false
    ∷ row "call_mute" backend_control signal false
    ∷ row "call_camera" backend_control signal false
    ∷ row "call_media_key" backend_control signal false
    ∷ row "file_transfer_offer" relay_hotpath command true
    ∷ row "file_transfer_accept" relay_hotpath command true
    ∷ row "file_transfer_reject" relay_hotpath command true
    ∷ row "file_transfer_handshake" relay_hotpath command false
    ∷ row "file_transfer_handshake_ack" relay_hotpath command false
    ∷ row "file_transfer_welcome" relay_hotpath command false
    ∷ row "file_transfer_file_key" relay_hotpath command false
    ∷ row "file_transfer_file_key_ack" relay_hotpath command false
    ∷ row "file_transfer_chunk" relay_hotpath command false
    ∷ row "file_transfer_complete" relay_hotpath command true
    ∷ row "file_transfer_complete_ack" relay_hotpath command true
    ∷ row "file_transfer_resume_request" relay_hotpath command false
    ∷ row "file_transfer_cancel" relay_hotpath command true
    ∷ row "chat_message_send" backend_control command false
    ∷ []

unfoldable pub command_registry_rows : List CommandSpec
command_registry_rows =
    auth_to_file_key_wrap
    ++ (file_key_fetch_to_upload_init
        ++ (upload_payload_to_conversations
            ++ (conversation_open_to_media_key ++ (session_mute_to_message_send))))

abbrev pub file_transfer_offer_bootstrap : RelayAuthorizationSpec
file_transfer_offer_bootstrap = record {
  requires_relay_context = false;
  relay_context_type = file_transfer_peer;
  audience_scope_mode = fixed_peer;
  guard_class = context_bound_peer;
  command_family = "file_transfer";
  operation_key_field = "transfer_id";
}

abbrev pub file_transfer_peer_context : RelayAuthorizationSpec
file_transfer_peer_context = record {
  requires_relay_context = true;
  relay_context_type = file_transfer_peer;
  audience_scope_mode = fixed_peer;
  guard_class = context_bound_peer;
  command_family = "file_transfer";
  operation_key_field = "transfer_id";
}

abbrev entry : String → RelayAuthorizationSpec → RelayAuthorizationEntry
entry name spec = record { command_name = name; spec = spec }

unfoldable pub relay_authorization_registry : List RelayAuthorizationEntry
relay_authorization_registry =
    entry "file_transfer_offer" file_transfer_offer_bootstrap
    ∷ entry "file_transfer_accept" file_transfer_peer_context
    ∷ entry "file_transfer_reject" file_transfer_peer_context
    ∷ entry "file_transfer_handshake" file_transfer_peer_context
    ∷ entry "file_transfer_handshake_ack" file_transfer_peer_context
    ∷ entry "file_transfer_welcome" file_transfer_peer_context
    ∷ entry "file_transfer_file_key" file_transfer_peer_context
    ∷ entry "file_transfer_file_key_ack" file_transfer_peer_context
    ∷ entry "file_transfer_chunk" file_transfer_peer_context
    ∷ entry "file_transfer_complete" file_transfer_peer_context
    ∷ entry "file_transfer_complete_ack" file_transfer_peer_context
    ∷ entry "file_transfer_resume_request" file_transfer_peer_context
    ∷ entry "file_transfer_cancel" file_transfer_peer_context
    ∷ []
