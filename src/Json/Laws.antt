-- ===== src/Json/Laws.antt =====
-- What the proofs rely on of serde_json, in its documentation: reading a text, reading a field of an
-- object and writing one.
use rust_http3_gateway.Prelude.{true, String, some, Map, lookup, Distinct, ◌≡◌}
use rust_http3_gateway.Json.{Json}

pub record JsonLaws ⦃j : Json⦄ : Type 0 where
  pub as_str-string : (s : String) → j.as_str (j.string s) ≡ some s
  -- An object that is built with different keys has what is given at each.
  pub get-object :
      (key : String) (fields : Map j.Value)
      → Distinct fields
      → j.get key (j.object fields) ≡ lookup key fields
  -- Only an object has a field at a text.
  pub get-IsObject : (key : String) (v w : j.Value) → j.get key v ≡ some w → j.is_object v ≡ true
  -- A field of an object can be written.
  pub set-object :
      (key : String) (x v : j.Value)
      → j.is_object v ≡ true
      → (w : j.Value) × (j.set key x v ≡ some w)
