-- ===== src/Broker/Xread.antt =====
-- broker.rs: the reply of Redis to `XREAD`.
use rust_http3_gateway.Prelude.{ℕ, String, List, [], ◌∷◌, Option, none, some, Map, insert, and_then}

-- What the source matches on in a value of the Redis client; `other` stands for the rest of its
-- cases.
pub data View {ℓ} (V : Type ℓ) : Type ℓ where
  nil : View V
  bulk : List V → View V
  bytes : List ℕ → View V
  other : View V

-- The values of the Redis client, and the decoding of bytes with replacement characters.
pub record Redis : Type 1 where
  pub Reply : Type 0
  pub view : Reply → View Reply
  pub from_utf8_lossy : List ℕ → String

module _ ⦃r : Redis⦄ where
  open r use {Reply, view, from_utf8_lossy}

  abbrev pub text_reply : Reply → Option String
  text_reply value = elim (view value) [ bytes b ↦ some (from_utf8_lossy b) | _ ↦ none ]

  abbrev pub list_reply : Reply → Option (List Reply)
  list_reply value = elim (view value) [ bulk items ↦ some items | _ ↦ none ]

  -- A list of exactly two.
  abbrev pub two_of : List Reply → Option (Reply × Reply)
  two_of (a ∷ b ∷ []) = some (a, b)
  two_of _ = none

  -- Keys and values in turn; a pair that is not of texts is passed over, a last single one is left.
  unfoldable pub parse_fields : List Reply → Map String → Map String
  parse_fields (key ∷ value ∷ rest) fields = parse_fields rest (elim (text_reply key) [
    | none ↦ fields
    | some k ↦ elim (text_reply value) [ none ↦ fields | some v ↦ insert k v fields ]
  ])
  parse_fields _ fields = fields

  unfoldable pub parse_entry : Reply → Option (String × Map String)
  unfolding parse_fields
  parse_entry entry = and_then (list_reply entry) λ parts. and_then (two_of parts) λ (id, fields).
      and_then (text_reply id)
        λ entry_id. and_then (list_reply fields) λ items. some (entry_id, parse_fields items [])

  unfoldable pub parse_entries : List Reply → List (String × Map String)
  unfolding parse_entry
  parse_entries [] = []
  parse_entries (entry ∷ rest) =
      let later = parse_entries rest in
      elim (parse_entry entry) [ none ↦ later | some parsed ↦ parsed ∷ later ]

  unfoldable pub parse_stream : Reply → Option (String × List (String × Map String))
  unfolding parse_entries
  parse_stream stream = and_then (list_reply stream) λ parts.
      and_then (two_of parts) λ (name, entries). and_then (text_reply name) λ stream_name.
        and_then (list_reply entries) λ items. some (stream_name, parse_entries items)

  unfoldable pub parse_streams : List Reply → List (String × List (String × Map String))
  unfolding parse_stream
  parse_streams [] = []
  parse_streams (stream ∷ rest) =
      let later = parse_streams rest in
      elim (parse_stream stream) [ none ↦ later | some parsed ↦ parsed ∷ later ]

  -- `none` is the error, whose text shows the value.
  unfoldable pub parse_xread : Reply → Option (List (String × List (String × Map String)))
  unfolding parse_streams
  parse_xread value = elim (view value) [
    | nil ↦ some []
    | bulk streams ↦ some (parse_streams streams)
    | bytes b ↦ none
    | other ↦ none
  ]
