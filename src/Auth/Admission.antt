-- ===== src/Auth/Admission.antt =====
-- transport/websocket.rs and transport/webtransport.rs: whom the loop of authentication lets in, and
-- when it is over.
use rust_http3_gateway.Prelude.{
  ℕ, suc, ◌<◌, ◌≤◌, true, false, String, List, [], ◌∷◌, ◌++◌, length, In, here, there, Option, none,
  some, is_empty, trim, Outcome, success, Outcome-cases, if_cases, ◌≡◌, refl, ◌∙◌, ap, subst, ◌⊎◌,
  inl, inr, Bool-cases, Option-cases, arith, byte_length,
}
use rust_http3_gateway.Json.{Json, str_field, text_field}
use rust_http3_gateway.Config.{Config}
use rust_http3_gateway.Auth.Jwt.{verify_jwt}
use rust_http3_gateway.Auth.Preauth.Types.{PreAuthFailure, PreAuthSuccess, normalize_request_id}
use rust_http3_gateway.Auth.Preauth.Commands.{resolve_initial_auth}
use rust_http3_gateway.Auth.Session.{
  is_valid_client_instance_id, client_instance_id_of, AuthContext, AuthRound, user_of, attempt,
  Reading, message, read_fails, read_waits, authenticated, next_payload, authenticate,
}

client_instance_id_of-IsValid :
    (id : String) → is_valid_client_instance_id (client_instance_id_of id) ≡ true
unfolding client_instance_id_of is_valid_client_instance_id byte_length
client_instance_id_of-IsValid id =
    if_cases (λ s. is_valid_client_instance_id s ≡ true) (is_valid_client_instance_id (trim id))
      (λ e. e) (λ e. refl)

abbrev user_is : String → Outcome PreAuthFailure String
user_is user_id = success user_id

module _ ⦃j : Json⦄ (config : Config) where
  -- Who vouches for a user: the first message itself, for a guest, or the claims of a token that is
  -- verified.
  pub data IsVouched (round : AuthRound) (p : PreAuthSuccess) (user_id : String) : Type 0 where
    guest : p.user_id ≡ some user_id → IsVouched round p user_id
    verified :
        (token : String) (claims : j.Value)
        → p.user_id ≡ none
        → p.token ≡ some token
        → verify_jwt ⦃w = round.jwt⦄ config token ≡ success claims
        → text_field config.jwt_user_id_claim claims ≡ user_id
        → IsVouched round p user_id

  pub record IsAdmitted (round : AuthRound) (payload : j.Value) (context : AuthContext)
      : Type 0 where
    pub first : PreAuthSuccess
    pub accepted :
        resolve_initial_auth config round.post round.now_ts round.now_micros payload ≡ success first
    pub vouched : IsVouched round first context.user_id
    pub named : is_empty context.user_id ≡ false
    pub valid_instance : is_valid_client_instance_id context.client_instance_id ≡ true

  user_of-IsVouched :
      (round : AuthRound) (p : PreAuthSuccess) (request_id : Option String) (user_id : String)
      → user_of config round p request_id ≡ success user_id
      → IsVouched round p user_id
  unfolding user_of
  user_of-IsVouched round p request_id user_id h = elim (Option-cases p.user_id) [
    | inr (guest_id, e) ↦
        let same : user_is guest_id ≡ user_is user_id = rw (e, user_of) at h in
        guest (e ∙ ap some (cc same))
    | inl e ↦ elim (Option-cases p.token) [
      | inl f ↦ cc (rw (e, f, user_of) at h)
      | inr (token, f) ↦ elim (Bool-cases (is_empty (trim token))) [
        | inl g ↦ cc (rw (e, f, g, user_of) at h)
        | inr g ↦ elim (Outcome-cases (verify_jwt ⦃w = round.jwt⦄ config token)) [
          | inr (refused, k) ↦ cc (rw (e, f, g, k, user_of) at h)
          | inl (claims, k) ↦
              let same : user_is (text_field config.jwt_user_id_claim claims) ≡ user_is user_id =
                rw (e, f, g, k, user_of) at h in
              verified token claims e f k (cc same)
        ]
      ]
    ]
  ]

  abbrev context_is : AuthContext → Outcome PreAuthFailure AuthContext
  context_is context = success context

  -- A client whose attempt succeeds is vouched for, its user is not empty, and the identifier of
  -- its instance is valid.
  attempt-IsAdmitted :
      (round : AuthRound) (payload : j.Value) (context : AuthContext)
      → attempt config round payload ≡ success context
      → IsAdmitted round payload context
  unfolding attempt
  attempt-IsAdmitted round payload context h =
      let request_id = normalize_request_id (str_field "request_id" payload) in
      elim (Outcome-cases
        (resolve_initial_auth config round.post round.now_ts round.now_micros payload)) [
          | inr (refused, e) ↦ cc (rw (e, attempt) at h)
          | inl (p, e) ↦ elim (Outcome-cases (user_of config round p request_id)) [
            | inr (refused, f) ↦ cc (rw (e, f, attempt) at h)
            | inl (user_id, f) ↦ elim (Bool-cases (is_empty user_id)) [
              | inl g ↦ cc (rw (e, f, g, attempt) at h)
              | inr g ↦
                  let made : AuthContext = record {
                    user_id = user_id;
                    client_instance_id = client_instance_id_of p.client_instance_id;
                    bootstrap_success_payload = p.success_payload;
                  } in
                  let same : context_is made ≡ context_is context = rw (e, f, g, attempt) at h in
                  let q : made ≡ context = cc same in
                  subst (IsAdmitted round payload) q (record {
                    first = p;
                    accepted = e;
                    vouched = user_of-IsVouched round p request_id user_id f;
                    named = g;
                    valid_instance = client_instance_id_of-IsValid p.client_instance_id;
                  })
            ]
          ]
        ]

  pub reading_cases :
      {Inputs : Type 0} (r : Reading Inputs)
      → ((r ≡ read_fails) ⊎ (r ≡ read_waits))
        ⊎ ((payload : j.Value) × (after : Inputs) × (r ≡ message payload after))
  reading_cases read_fails = inl (inl refl)
  reading_cases read_waits = inl (inr refl)
  reading_cases (message payload after) = inr (payload, after, refl)

  module _ {Inputs : Type 0} (read : Inputs → Reading Inputs) where
    -- A client that the loop lets in is admitted by one of its rounds: it is vouched for, its user
    -- is not empty, and the identifier of its instance is valid.
    pub authenticate-IsAdmitted :
        (rounds : List AuthRound) (pending : Option j.Value) (inputs after : Inputs)
        (context : AuthContext)
        → (authenticate read config rounds pending inputs).1 ≡ authenticated context after
        → (round : AuthRound) × (payload : j.Value) × In round rounds
          × IsAdmitted round payload context
    unfolding authenticate
    authenticate-IsAdmitted [] pending inputs after context h = cc
    authenticate-IsAdmitted (round ∷ rounds) pending inputs after context h =
        elim (reading_cases (next_payload read config pending inputs)) [
          | inl (inl e) ↦ cc (rw (e, authenticate) at h)
          | inl (inr e) ↦ cc (rw (e, authenticate) at h)
          | inr (payload, left, e) ↦ elim (Outcome-cases (attempt config round payload)) [
            | inl (made, f) ↦
                let q : made ≡ context = cc (rw (e, f, authenticate) at h) in
                (
                  round,
                  payload,
                  here refl,
                  attempt-IsAdmitted round payload context (f ∙ ap context_is q),
                )
            | inr (refused, f) ↦
                let (r, p, i, admitted) =
                  authenticate-IsAdmitted rounds none left after context
                    (rw (e, f, authenticate) at h) in
                (r, p, there i, admitted)
          ]
        ]

    -- `size` counts what is left to read: each message takes some of it.
    module _ (size : Inputs → ℕ)
        (shrinks : (inputs after : Inputs) (payload : j.Value)
          → read inputs ≡ message payload after
          → size after < size inputs) where
      abbrev pub attempts_needed : Option j.Value → Inputs → ℕ
      attempts_needed none inputs = suc (size inputs)
      attempts_needed (some payload) inputs = suc (suc (size inputs))

      pub next-lt :
          (pending : Option j.Value) (inputs after : Inputs) (payload : j.Value)
          → next_payload read config pending inputs ≡ message payload after
          → attempts_needed none after < attempts_needed pending inputs
      next-lt none inputs after payload h = omega (arith, shrinks inputs after payload h)
      next-lt (some p) inputs after payload h = let q : inputs ≡ after = cc h in rw q (omega arith)

      pub authenticate_enough :
          (rounds more : List AuthRound) (pending : Option j.Value) (inputs : Inputs)
          → attempts_needed pending inputs ≤ length rounds
          → authenticate read config (rounds ++ more) pending inputs
            ≡ authenticate read config rounds pending inputs
      unfolding authenticate
      authenticate_enough [] more none inputs h = absurd (omega arith)
      authenticate_enough [] more (some p) inputs h = absurd (omega arith)
      authenticate_enough (round ∷ rounds) more pending inputs h =
          elim (reading_cases (next_payload read config pending inputs)) [
            | inl (inl e) ↦ rw (e, authenticate) refl
            | inl (inr e) ↦ rw (e, authenticate) refl
            | inr (payload, left, e) ↦ elim (Outcome-cases (attempt config round payload)) [
              | inl (made, f) ↦ rw (e, f, authenticate) refl
              | inr (refused, f) ↦
                  rw
                    (
                      e,
                      f,
                      authenticate_enough rounds more none left
                          (omega (arith, next-lt pending inputs left payload e)),
                      authenticate,
                    )
                    refl
            ]
          ]
