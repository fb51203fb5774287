-- ===== src/Auth/Jwt.antt =====
-- auth.rs: the check of a token.
use rust_http3_gateway.Prelude.{
  ℕ, ltb, ℤ, pos, negsuc, Bool, not, String, List, Option, none, some, find, ◌==◌, is_empty,
  Outcome, success, failure, ◌>>=◌, ok_or, if◌then◌else◌,
}
use rust_http3_gateway.Json.{Json}
use rust_http3_gateway.Config.{Config}

pub data AuthError : Type 0 where
  missing_token invalid_token config_missing : AuthError

-- The algorithms that the configuration can name.
pub data Algorithm : Type 0 where
  rs256 rs384 rs512 hs256 hs384 hs512 : Algorithm

unfoldable pub algorithm_of : String → Algorithm
algorithm_of name =
    if name == "RS256"
    then rs256
    else if name == "RS384"
    then rs384
    else if name == "RS512"
    then rs512
    else if name == "HS256"
    then hs256
    else if name == "HS384"
    then hs384
    else if name == "HS512"
    then hs512
    else rs256

-- What a token must match; without a leeway it is the one of the library.
pub record Validation : Type 0 where
  pub algorithm : Algorithm
  pub issuer : Option String
  pub audience : Option String
  pub leeway : Option ℕ

abbrev pub given : String → Option String
given s = if is_empty s then none else some s

abbrev pub positive_leeway : ℤ → Option ℕ
positive_leeway (pos n) = if ltb 0 n then some n else none
positive_leeway (negsuc n) = none

unfoldable pub validation_of : Config → Validation
unfolding algorithm_of
validation_of config = record {
  algorithm = algorithm_of config.jwt_alg;
  issuer = given config.jwt_issuer;
  audience = given config.jwt_audience;
  leeway = positive_leeway config.jwt_leeway;
}

-- jsonwebtoken and the request for the keys of an issuer.
pub record Jwt ⦃j : Json⦄ : Type 1 where
  pub Key : Type 0
  pub Jwk : Type 0
  -- The id of the key in the header of a token: `none` where there is no header.
  pub decode_header : String → Option (Option String)
  pub key_id : Jwk → Option String
  pub from_jwk : Jwk → Option Key
  pub from_secret : String → Key
  pub from_rsa_pem : String → Option Key
  pub decode : String → Key → Validation → Option j.Value
  pub fetch_jwks : String → Option (List Jwk)

unfoldable pub is_named : String → Option String → Bool
is_named kid none = Bool.false
is_named kid (some id) = id == kid

module _ ⦃j : Json⦄ ⦃w : Jwt⦄ where
  open j use {Value}
  open w use {Key, key_id, from_jwk, from_secret, from_rsa_pem, decode, decode_header, fetch_jwks}

  -- By the key of the issuer that the header of the token names.
  unfoldable pub verify_by_jwks : String → String → Validation → Outcome AuthError Value
  unfolding is_named
  verify_by_jwks url token validation = do
    header ← ok_or (decode_header token) invalid_token
    kid ← ok_or header invalid_token
    keys ← ok_or (fetch_jwks url) invalid_token
    jwk ← ok_or (find (λ key. is_named kid (key_id key)) keys) invalid_token
    decoding_key ← ok_or (from_jwk jwk) invalid_token
    ok_or (decode token decoding_key validation) invalid_token

  -- The secret of a symmetric algorithm, or else a public key.
  unfoldable pub static_key : Algorithm → String → Outcome AuthError Key
  static_key hs256 key = success (from_secret key)
  static_key hs384 key = success (from_secret key)
  static_key hs512 key = success (from_secret key)
  static_key _ key = ok_or (from_rsa_pem key) invalid_token

  unfoldable pub verify_jwt : Config → String → Outcome AuthError Value
  unfolding validation_of verify_by_jwks static_key
  verify_jwt config token =
      let validation = validation_of config in
      if not (is_empty config.jwt_jwks_url)
      then verify_by_jwks config.jwt_jwks_url token validation
      else if not (is_empty config.jwt_public_key)
      then (static_key validation.algorithm config.jwt_public_key >>= λ decoding_key.
          ok_or (decode token decoding_key validation) invalid_token)
      else failure config_missing
