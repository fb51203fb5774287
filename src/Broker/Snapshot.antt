-- ===== src/Broker/Snapshot.antt =====
-- broker.rs: a snapshot of relay contexts, as the backend writes it in JSON.
use rust_http3_gateway.Prelude.{
  ℕ, eqb, ℤ, pos, negsuc, not, ◌||◌, String, List, [], ◌∷◌, Option, none, some, and_then, unwrap_or,
  ◌==◌, trim, to_lowercase, Unicode, saturating_add, if◌then◌else◌, or_option,
}
use rust_http3_gateway.Json.{Json, str_field, text_field, named_field}
use rust_http3_gateway.Routes.Types.{
  RelayContextType, file_transfer_peer, AudienceScopeMode, fixed_peer, context_members,
  explicit_subset,
}
use rust_http3_gateway.State.Types.{
  RelayContextState, opened, active, revoked, closed, policy_version_bumped, RelayGrant,
  RelayAudienceScope, RelayOperationContext, RelayContextSnapshot,
}

-- A positive number of an `i64`, as a `u64`.
abbrev pub positive : ℤ → Option ℕ
positive (pos n) = if eqb n 0 then none else some n
positive (negsuc n) = none

module _ ⦃u : Unicode⦄ where
  unfoldable pub parse_context_type : String → Option RelayContextType
  parse_context_type value =
      if to_lowercase (trim value) == "file_transfer_peer" then some file_transfer_peer else none

  unfoldable pub parse_scope_mode : String → Option AudienceScopeMode
  parse_scope_mode value =
      let name = to_lowercase (trim value) in
      if name == "fixed_peer"
      then some fixed_peer
      else if name == "context_members"
      then some context_members
      else if name == "explicit_subset"
      then some explicit_subset
      else none

  unfoldable pub parse_context_state : String → Option RelayContextState
  parse_context_state value =
      let name = to_lowercase (trim value) in
      if name == "opened"
      then some opened
      else if name == "active"
      then some active
      else if name == "revoked"
      then some revoked
      else if name == "closed"
      then some closed
      else if name == "policy_version_bumped"
      then some policy_version_bumped
      else none

  module _ ⦃j : Json⦄ where
    open j use {Value, get, as_str, as_i64, as_u64, as_array, is_object}

    unfoldable pub parse_u64 : Option Value → Option ℕ
    parse_u64 value =
        and_then value λ item. or_option (as_u64 item) (and_then (as_i64 item) positive)

    unfoldable pub parse_i64 : Option Value → Option ℤ
    parse_i64 value = and_then value as_i64

    -- The texts of an array, without what is no text.
    unfoldable pub texts_of : List Value → List String
    texts_of [] = []
    texts_of (item ∷ rest) = elim (as_str item) [
      | none ↦ texts_of rest
      | some t ↦ t ∷ texts_of rest
    ]

    abbrev pub texts_field : String → Value → List String
    texts_field key value = texts_of (unwrap_or (and_then (get key value) as_array) [])

    -- `value.get(key).and_then(Value::as_object)`.
    abbrev pub object_field : String → Value → Option Value
    object_field key value = and_then (get key value) λ v. if is_object v then some v else none

    unfoldable pub parse_grant : Value → ℕ → ℤ → ℤ → Option RelayGrant
    unfolding parse_u64 parse_i64
    parse_grant context policy_version received_at expires_at =
        and_then (object_field "grant" context) λ grant.
          and_then (named_field "grant_id" grant) λ grant_id. some (record {
            grant_id = grant_id;
            policy_version = unwrap_or (parse_u64 (get "policy_version" grant)) policy_version;
            issued_at = unwrap_or (parse_i64 (get "issued_at" grant)) received_at;
            expires_at = unwrap_or (parse_i64 (get "expires_at" grant)) expires_at;
          })

    unfoldable pub parse_scope : Value → Option RelayAudienceScope
    unfolding parse_scope_mode texts_of
    parse_scope context = and_then (object_field "audience_scope" context) λ scope.
        and_then (parse_scope_mode (text_field "mode" scope))
          λ mode. some (record { mode = mode; peers = texts_field "peers" scope })

    -- One item of the list; each `?` is `none`.
    unfoldable pub parse_context :
        RelayContextType → ℕ → ℤ → ℤ → Value → Option RelayOperationContext
    unfolding parse_context_state parse_u64 parse_i64 parse_grant parse_scope
    parse_context context_type policy_version received_at default_ttl item =
        if not (is_object item)
        then none
        else and_then (named_field "context_id" item) λ context_id.
          and_then (named_field "operation_key" item) λ operation_key.
            and_then (named_field "authorized_subject" item) λ authorized_subject.
              and_then (parse_context_state (unwrap_or (str_field "state" item) "active")) λ state.
                let version = unwrap_or (parse_u64 (get "policy_version" item)) policy_version in
                let expires_at =
                  unwrap_or (parse_i64 (get "expires_at" item))
                    (saturating_add received_at default_ttl) in
                and_then (parse_grant item version received_at expires_at) λ grant.
                  and_then (parse_scope item) λ scope. some (record {
                    context_id = context_id;
                    operation_key = operation_key;
                    operation_class = "relay_hotpath";
                    context_type = context_type;
                    state = state;
                    authorized_subject = authorized_subject;
                    audience_scope = scope;
                    allowed_command_families = texts_field "allowed_command_families" item;
                    policy_version = version;
                    grant = grant;
                    opened_at = unwrap_or (parse_i64 (get "opened_at" item)) received_at;
                    updated_at = unwrap_or (parse_i64 (get "updated_at" item)) received_at;
                    expires_at = expires_at;
                  })

    unfoldable pub parse_contexts :
        RelayContextType → ℕ → ℤ → ℤ → List Value → List RelayOperationContext
    unfolding parse_context
    parse_contexts context_type policy_version received_at default_ttl [] = []
    parse_contexts context_type policy_version received_at default_ttl (item ∷ rest) =
        let later = parse_contexts context_type policy_version received_at default_ttl rest in
        elim (parse_context context_type policy_version received_at default_ttl item) [
          | none ↦ later
          | some context ↦ context ∷ later
        ]

    -- `now_ts` is the reading of the clock for a snapshot without a time.
    unfoldable pub parse_relay_context_snapshot : Value → ℤ → Option RelayContextSnapshot
    unfolding parse_context_type parse_u64 parse_i64 parse_contexts
    parse_relay_context_snapshot payload now_ts =
        if not (text_field "type" payload == "gateway_relay_context_snapshot")
          || not (to_lowercase (trim (text_field "operation_class" payload)) == "relay_hotpath")
        then none
        else and_then (named_field "subject" payload) λ subject_email.
          and_then (parse_context_type (text_field "context_type" payload)) λ context_type.
            and_then (parse_u64 (get "policy_version" payload)) λ policy_version.
              let received_at = unwrap_or (parse_i64 (get "ts" payload)) now_ts in
              let default_ttl =
                unwrap_or (parse_i64 (get "default_ttl_seconds" payload)) (pos 86_400) in
              some (record {
                subject_email = subject_email;
                context_type = context_type;
                policy_version = policy_version;
                contexts =
                    parse_contexts context_type policy_version received_at default_ttl
                      (unwrap_or (and_then (get "contexts" payload) as_array) []);
                received_at = received_at;
              })
