-- ===== src/State/Tests.antt =====
-- Relay contexts and commands on concrete inputs: a file transfer that ann has a grant for.
use rust_http3_gateway.Prelude.{
  pos, true, String, [], ◌∷◌, none, some, lookup, insert, str_dec, trim, trim_start, trim_end,
  is_whitespace, is_ascii, ascii_lower, to_lowercase, Unicode, concat, saturating_sub, ◌≡◌, refl,
  inl, here, arith,
}
use rust_http3_gateway.Routes.Types.{
  RelayAuthorizationSpec, file_transfer_peer, fixed_peer, context_bound_peer,
}
use rust_http3_gateway.State.Types.{
  GatewayState, RelayOperationContext, RelaySubjectContexts, RelayContextSnapshot,
  RelayAuthDecision, active, is_relay_permitted, new,
}
use rust_http3_gateway.State.RelayContexts.{sanitize_email, apply_relay_context_snapshot}
use rust_http3_gateway.State.RelayLimits.{
  ok, ensure_relay_replay_fresh, ensure_relay_rate_limit, rate_key, prune_relay_replay_cache,
}
use rust_http3_gateway.State.RelayLimits.Laws.{repeat_calls, repeat_calls_limit}
use rust_http3_gateway.State.RelayAuth.{
  check_context, check_nonce, admit, authorize_each, authorize_subject, authorize_relay_hotpath,
}
use rust_http3_gateway.State.RelayAuth.Completeness.{
  IsAdmission, authorize_relay_hotpath-IsAdmission,
}
use rust_http3_gateway.State.RelayAuth.Soundness.{
  authorize_relay_hotpath_sound, IsCallAuthorized, request_of,
}
use rust_http3_gateway.State.RelayAuth.Replay.{nonce_passes_once, call}
use rust_http3_gateway.State.RelayAuth.Retry.{IsRefused}
use rust_http3_gateway.State.RelayContexts.Laws.{
  IsOwned, IsNewer, apply_relay_context_snapshot-IsNewer, apply_relay_context_snapshot-IsOwned,
}
use rust_http3_gateway.State.RelayContexts.Keys.{IsKeyed, apply_relay_context_snapshot-IsKeyed}

instance abbrev pub same_case : Unicode
same_case = record { lower = λ s. s }

abbrev pub transfer : RelayAuthorizationSpec
transfer = record {
  requires_relay_context = true;
  relay_context_type = file_transfer_peer;
  audience_scope_mode = fixed_peer;
  guard_class = context_bound_peer;
  command_family = "file_transfer";
  operation_key_field = "transfer_id";
}

abbrev grant_of_ann : RelayOperationContext
grant_of_ann = record {
  context_id = "c1";
  operation_key = "t1";
  operation_class = "file_transfer";
  context_type = file_transfer_peer;
  state = active;
  authorized_subject = "ann";
  audience_scope = record { mode = fixed_peer; peers = "bob" ∷ [] };
  allowed_command_families = "file_transfer" ∷ [];
  policy_version = 3;
  grant = record { grant_id = "g1"; policy_version = 3; issued_at = pos 1; expires_at = pos 5000 };
  opened_at = pos 1;
  updated_at = pos 1;
  expires_at = pos 5000;
}

abbrev record_of_ann : RelaySubjectContexts
record_of_ann = record {
  context_type = file_transfer_peer;
  policy_version = 3;
  updated_at = pos 1;
  contexts = grant_of_ann ∷ [];
}

abbrev with_grant : GatewayState
unfolding new
with_grant = record (new none) { relay_contexts_by_subject = ("ann", record_of_ann) ∷ [] }

abbrev decision_for_ann : RelayAuthDecision
decision_for_ann = record { context_id = "c1"; policy_version = 3 }

-- A later snapshot for the same subject.
abbrev pub newer : RelayContextSnapshot
newer = record {
  subject_email = "ANN";
  context_type = file_transfer_peer;
  policy_version = 4;
  contexts = record grant_of_ann { context_id = "c2"; operation_key = "t2" } ∷ grant_of_ann ∷ [];
  received_at = pos 200;
}

chunk_passes :
    (authorize_relay_hotpath with_grant " Ann " "file_transfer_chunk" transfer "t1"
      ("BOB" ∷ [])
      (some "n1")
      none
      (pos 100)).1
    ≡ ok decision_for_ann
unfolding authorize_relay_hotpath authorize_subject authorize_each check_context admit check_nonce
    sanitize_email to_lowercase trim trim_start trim_end is_whitespace is_ascii ascii_lower lookup
    insert str_dec ensure_relay_replay_fresh prune_relay_replay_cache ensure_relay_rate_limit
    is_relay_permitted concat rate_key new with_grant
chunk_passes = refl

authorize_relay_hotpath_sound_example :
    (normalized : String) × IsCallAuthorized with_grant " Ann " "t1"
      ("BOB" ∷ [])
      none
      (request_of with_grant " Ann " "file_transfer_chunk" transfer "t1"
        ("BOB" ∷ [])
        (some "n1")
        none
        (pos 100)
        decision_for_ann
        normalized)
      decision_for_ann
authorize_relay_hotpath_sound_example =
    authorize_relay_hotpath_sound with_grant " Ann " "file_transfer_chunk" transfer "t1"
      ("BOB" ∷ []) (some "n1") none (pos 100) decision_for_ann chunk_passes

nonce_passes_once_example :
    IsRefused
      (call " Ann " "file_transfer_chunk" transfer "t1"
        ("BOB" ∷ [])
        "n1"
        none
        (call " Ann " "file_transfer_chunk" transfer "t1"
          ("BOB" ∷ [])
          "n1"
          none
          with_grant
          (pos 100)).0
        (pos 160)).1
unfolding trim trim_start trim_end is_whitespace with_grant saturating_sub
nonce_passes_once_example =
    nonce_passes_once " Ann " "file_transfer_chunk" transfer "t1" ("BOB" ∷ []) "n1" none with_grant
      (pos 100) (pos 160) tt refl (inl (decision_for_ann, chunk_passes)) refl

repeat_calls_limit_example :
    (repeat_calls "ann" "file_transfer_chunk" "c1" (pos 100) 300 with_grant).1 ≡ 240
unfolding lookup with_grant
repeat_calls_limit_example =
    repeat_calls_limit "ann" "file_transfer_chunk" "c1" (pos 100) 300 with_grant refl

apply_relay_context_snapshot-IsNewer_example : IsNewer record_of_ann (
    lookup "ann"
      (apply_relay_context_snapshot with_grant newer (pos 200)).relay_contexts_by_subject)
unfolding lookup str_dec with_grant
apply_relay_context_snapshot-IsNewer_example =
    apply_relay_context_snapshot-IsNewer with_grant newer (pos 200) "ann" record_of_ann refl

apply_relay_context_snapshot-IsOwned_example :
    IsOwned (apply_relay_context_snapshot with_grant newer (pos 200)).relay_contexts_by_subject
unfolding with_grant
apply_relay_context_snapshot-IsOwned_example =
    apply_relay_context_snapshot-IsOwned with_grant newer (pos 200) (((refl, refl), tt), tt)

apply_relay_context_snapshot-IsKeyed_example :
    IsKeyed (apply_relay_context_snapshot with_grant newer (pos 200)).relay_contexts_by_subject
unfolding with_grant
apply_relay_context_snapshot-IsKeyed_example =
    apply_relay_context_snapshot-IsKeyed with_grant newer (pos 200) ((tt, tt), tt)

-- What the call for a chunk of Ann's transfer leads to.
authorize_relay_hotpath-IsAdmission_example :
    IsAdmission with_grant
      (request_of with_grant " Ann " "file_transfer_chunk" transfer "t1"
        ("BOB" ∷ [])
        (some "n1")
        none
        (pos 100)
        decision_for_ann
        "ann")
      grant_of_ann
      (authorize_relay_hotpath with_grant " Ann " "file_transfer_chunk" transfer "t1"
        ("BOB" ∷ [])
        (some "n1")
        none
        (pos 100)).1
unfolding to_lowercase trim trim_start trim_end is_whitespace is_ascii ascii_lower lookup str_dec
    sanitize_email with_grant new
authorize_relay_hotpath-IsAdmission_example =
    authorize_relay_hotpath-IsAdmission with_grant " Ann " "file_transfer_chunk" transfer "t1"
      ("BOB" ∷ []) (some "n1") none (pos 100) "ann" record_of_ann grant_of_ann ((tt, tt), tt) refl
      refl refl refl refl refl (here refl)
      (record {
        same_type = refl;
        same_key = refl;
        family = refl;
        bound = refl;
        has_grant = refl;
        versioned = omega arith;
        same_version = refl;
        unexpired = omega arith;
        grant_unexpired = omega arith;
        same_mode = refl;
        in_scope = refl;
        is_active = refl;
      })
