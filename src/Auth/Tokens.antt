-- ===== src/Auth/Tokens.antt =====
-- preauth.rs: the token that the backend gives is not empty, and is the one that the client is told.
use rust_http3_gateway.Prelude.{
  ℕ, ℤ, false, not, String, List, [], ◌∷◌, ◌++◌, Option, none, some, is_empty, trim, Outcome,
  success, failure, ◌>>=◌, if_both, ◌≡◌, refl, inl, inr, Bool-cases, Option-cases, filter_option,
  lookup, Distinct, unwrap_or, str_dec, concat, trim_end_slashes,
}
use mathlib.Core.Option
use rust_http3_gateway.Json.{Json, str_field, text_field, named_field}
use rust_http3_gateway.Json.Laws.{JsonLaws}
use rust_http3_gateway.Auth.Preauth.Types.{PreAuthFailure}
use rust_http3_gateway.Auth.Preauth.Backend.{
  HttpReply, no_client, no_reply, reply, read_reply, is_success, authenticate_via_http,
}
use rust_http3_gateway.Auth.Preauth.Commands.{success_fields, user_field, request_id_field}

-- What a success has: a text that is not empty.
pub filled_of_filter :
    (o : Option String) (s : String)
    → filter_option (λ t. not (is_empty t)) o ≡ some s
    → is_empty s ≡ false
filled_of_filter none s h = cc
filled_of_filter (some t) s h = elim (Bool-cases (is_empty t)) [
  | inl e ↦ cc (rw e at h)
  | inr e ↦ let same : some t ≡ some s = rw e at h in let q : t ≡ s = cc same in rw (← q) e
]

-- A property of a success, that a failure has for nothing.
abbrev pub OnSuccess {ℓ} : {E A : Type 0} → (A → Type ℓ) → Outcome E A → Type ℓ
OnSuccess P (success a) = P a
OnSuccess P (failure e) = Unit

pub OnSuccess-bind :
    {E A B : Type 0} (P : B → Type 0) (m : Outcome E A) (f : A → Outcome E B)
    → ((a : A) → m ≡ success a → OnSuccess P (f a))
    → OnSuccess P (m >>= f)
OnSuccess-bind P (success a) f h = h a refl
OnSuccess-bind P (failure e) f h = tt

module _ ⦃j : Json⦄ where
  abbrev fields_with : String → String → ℤ → Option String → j.Value → List (String × j.Value)
  fields_with kind token now_ts request_id user =
      (("type", j.string kind) ∷ ("token", j.string token) ∷ ("ts", j.integer now_ts) ∷ [])
      ++ request_id_field request_id
      ++ user_field user

  fields-Distinct :
      (kind token : String) (now_ts : ℤ) (request_id : Option String) (user : j.Value)
      → Distinct (fields_with kind token now_ts request_id user)
  unfolding lookup str_dec
  fields-Distinct kind token now_ts none user = elim (Bool-cases (j.is_null user)) [
    | inl e ↦ rw e (refl, (refl, (refl, tt)))
    | inr e ↦ rw e (refl, (refl, (refl, (refl, tt))))
  ]
  fields-Distinct kind token now_ts (some id) user = elim (Bool-cases (j.is_null user)) [
    | inl e ↦ rw e (refl, (refl, (refl, (refl, tt))))
    | inr e ↦ rw e (refl, (refl, (refl, (refl, (refl, tt)))))
  ]

  -- The token of the message to the client is the one that the backend has given.
  pub token_of_success :
      ⦃l : JsonLaws⦄ (kind token : String) (now_ts : ℤ) (request_id : Option String)
      (user : j.Value)
      → text_field "token" (success_fields kind "token" token now_ts request_id (user_field user))
        ≡ token
  unfolding lookup str_dec
  token_of_success ⦃l⦄ kind token now_ts request_id user =
      rw
        (
          l.get-object "token" (fields_with kind token now_ts request_id user)
              (fields-Distinct kind token now_ts request_id user),
          l.as_str-string token,
        )
        refl

  abbrev pub HasToken : Outcome PreAuthFailure (String × j.Value) → Type 0
  HasToken = OnSuccess (λ r. is_empty r.0 ≡ false)

  read_reply-HasToken :
      (status : ℕ) (parsed : j.Value) (request_id : Option String)
      → HasToken (read_reply status parsed request_id)
  unfolding read_reply
  read_reply-HasToken status parsed request_id =
      if_both HasToken (not (is_success status)) tt
        (elim (Option-cases (named_field "token" parsed)) [
          | inl missing ↦ rw missing tt
          | inr (token, found) ↦
              rw found (filled_of_filter (Option.map trim (str_field "token" parsed)) token found)
        ])

  pub via_http-HasToken :
      (post : String → ℕ → j.Value → HttpReply) (base_url : String) (timeout_ms : ℕ) (path : String)
      (body : j.Value) (request_id : Option String)
      → HasToken (authenticate_via_http post base_url timeout_ms path body request_id)
  unfolding authenticate_via_http
  via_http-HasToken post base_url timeout_ms path body request_id =
      if_both HasToken (is_empty (trim_end_slashes (trim base_url))) tt
        (of_reply (post (concat (trim_end_slashes (trim base_url) ∷ path ∷ [])) timeout_ms body))
    where
      of_reply :
          (r : HttpReply)
          → HasToken (elim r [
            | no_client ↦ failure (record {
              code = "auth_backend_unavailable";
              message = "Could not initialize auth client.";
              request_id = request_id;
            })
            | no_reply ↦ failure (record {
              code = "auth_backend_timeout";
              message = "Auth backend request failed.";
              request_id = request_id;
            })
            | reply status body ↦ read_reply status (unwrap_or body (j.object [])) request_id
          ])
      of_reply no_client = tt
      of_reply no_reply = tt
      of_reply (reply status body) = read_reply-HasToken status _ request_id
