-- ===== src/Json.antt =====
-- The JSON values of serde_json: an interface, of which the gateway uses what stands here.
pub mod Laws
pub mod Tests
use rust_http3_gateway.Prelude.{
  ℕ, ℤ, Bool, true, String, List, [], ◌∷◌, Option, some, Map, lookup, Distinct, and_then, ◌≡◌,
  is_empty, trim, filter_option, not, unwrap_or, map, str_dec, ite,
}
use mathlib.Core.Option

pub record Json : Type 1 where
  pub Value : Type 0
  pub null : Value
  pub boolean : Bool → Value
  pub integer : ℤ → Value
  pub string : String → Value
  pub array : List Value → Value
  pub object : List (String × Value) → Value
  -- `get` of a value and of a map; `set` is the assignment to an index, which panics (`none`) on
  -- what is neither an object nor null.
  pub get : String → Value → Option Value
  pub set : String → Value → Value → Option Value
  pub as_str : Value → Option String
  pub as_bool : Value → Option Bool
  pub as_i64 : Value → Option ℤ
  pub as_u64 : Value → Option ℕ
  pub as_array : Value → Option (List Value)
  pub is_object : Value → Bool
  pub is_null : Value → Bool
  pub is_string : Value → Bool
  pub from_str : String → Option Value
  pub to_string : Value → Option String

module _ ⦃j : Json⦄ where
  open j use {Value, string, array, object, get, as_str, to_string}

  -- `value.get(key).and_then(Value::as_str)`, and what is made of it.
  abbrev pub str_field : String → Value → Option String
  str_field key value = and_then (get key value) as_str

  abbrev pub text_field : String → Value → String
  text_field key value = unwrap_or (str_field key value) ""

  -- With `.map(str::trim).filter(|value| !value.is_empty())`.
  abbrev pub named_field : String → Value → Option String
  named_field key value =
      filter_option (λ s. not (is_empty s)) (Option.map trim (str_field key value))

  abbrev pub texts : List String → Value
  texts items = array (map string items)

  -- `json!({"type": "event", "payload": ..})`, as a text.
  abbrev pub event_text : Value → Option String
  event_text payload = to_string (object (("type", string "event") ∷ ("payload", payload) ∷ []))
