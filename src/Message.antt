-- ===== src/Message.antt =====
-- message.rs: what the backend is told of a client's message.
use rust_http3_gateway.Prelude.{
  ℤ, Bool, String, List, [], ◌∷◌, ◌++◌, Option, none, some, and_then, or_option, filter_option, not,
  is_empty,
}
use rust_http3_gateway.Json.{Json, str_field, named_field}

pub record MessageFlags : Type 0 where
  pub encrypted : Option Bool
  pub qos : Option String

module _ ⦃j : Json⦄ where
  open j use {Value, boolean, string, object, get, as_bool}

  pub record InternalMessage : Type 0 where
    pub schema_version : ℤ
    pub internal_id : String
    pub timestamp_ms : ℤ
    pub user_id : String
    pub channel_id : String
    pub flags : MessageFlags
    pub payload : Value

  -- The loop over the keys under which a channel may stand.
  unfoldable pub first_channel : List String → Value → String → String
  first_channel [] value fallback = fallback
  first_channel (key ∷ rest) value fallback = elim (named_field key value) [
    | none ↦ first_channel rest value fallback
    | some channel ↦ channel
  ]

  unfoldable pub extract_channel_id : Value → String → String
  unfolding first_channel
  extract_channel_id value fallback =
      first_channel ("channel_id" ∷ "channel" ∷ "topic" ∷ []) value fallback

  unfoldable pub extract_payload : Value → Value
  extract_payload value = elim (get "payload" value) [ none ↦ value | some payload ↦ payload ]

  -- A later source of a flag replaces an earlier one.
  abbrev pub nested_flag : Value → Option Bool
  nested_flag value =
      and_then (get "flags" value) (λ nested. and_then (get "encrypted" nested) as_bool)

  abbrev pub qos_of : Value → Option String
  qos_of value = filter_option (λ qos. not (is_empty qos)) (str_field "qos" value)

  unfoldable pub extract_flags : Value → MessageFlags
  extract_flags value = record {
    encrypted = or_option (nested_flag value) (and_then (get "encrypted" value) as_bool);
    qos = or_option (qos_of value) (and_then (get "flags" value) qos_of);
  }

  -- The derived `Serialize`, which leaves out what is `None`.
  unfoldable pub flags_json : MessageFlags → Value
  flags_json flags = object (
      elim flags.encrypted [ none ↦ [] | some b ↦ ("encrypted", boolean b) ∷ [] ]
      ++ elim flags.qos [ none ↦ [] | some q ↦ ("qos", string q) ∷ [] ])
