-- ===== src/HttpApi/Access.antt =====
-- http_api.rs: who may publish, and which connections are listed.
use rust_http3_gateway.Prelude.{
  ℕ, ℤ, Bool, true, false, String, List, [], Option, none, some, unwrap_or, is_nil, map, In,
  In-of_retain, In-retain, ◌≡◌, refl, ◌⊎◌, inl, inr, Bool-cases, Option-cases, ◌↔◌, ◌∷◌, sym, subst,
  eq_iff, arith, is_empty,
}
use rust_http3_gateway.Json.{Json, event_text}
use rust_http3_gateway.State.Types.{GatewayState, ConnectionInfo}
use rust_http3_gateway.State.Dispatch.{send_to_subjects}
use rust_http3_gateway.State.Readiness.{is_listed, list_connections as connections_of}
use rust_http3_gateway.HttpApi.{PublishRequest, is_key_accepted, refusal, publish}

is_empty_iff : (s : String) → (is_empty s ≡ true) ↔ (s ≡ "")
is_empty_iff String.[] = (λ h. refl, λ h. refl)
is_empty_iff (String.◌∷◌ c s) = (λ h. cc, λ h. subst (λ t. is_empty t ≡ true) (sym h) refl)

-- The key that the request gives, in its body or else in its header, is the one of the
-- configuration, or this has none.
abbrev pub IsLetIn : String → Option String → Option String → Type 0
IsLetIn gateway_api_key header_key api_key =
    (gateway_api_key ≡ "")
    ⊎ ((api_key ≡ some gateway_api_key) ⊎ ((api_key ≡ none) × (header_key ≡ some gateway_api_key)))

module _ ⦃j : Json⦄ where
  is_key_accepted-IsLetIn :
      (gateway_api_key : String) (header_key api_key : Option String)
      → is_key_accepted gateway_api_key header_key api_key ≡ true
      → IsLetIn gateway_api_key header_key api_key
  unfolding is_key_accepted
  is_key_accepted-IsLetIn key header_key (some given) h =
      ground (arith, is_empty_iff key, eq_iff given key)
  is_key_accepted-IsLetIn key (some given) none h =
      ground (arith, is_empty_iff key, eq_iff given key)
  is_key_accepted-IsLetIn key none none h = ground (arith, is_empty_iff key, eq_iff "" key)

  is_key_accepted-refuses :
      (gateway_api_key : String) (header_key api_key : Option String)
      → is_key_accepted gateway_api_key header_key api_key ≡ false
      → ¬ (IsLetIn gateway_api_key header_key api_key)
  unfolding is_key_accepted
  is_key_accepted-refuses key header_key (some given) h =
      λ c. ground (arith, is_empty_iff key, eq_iff given key, c)
  is_key_accepted-refuses key (some given) none h =
      λ c. ground (arith, is_empty_iff key, eq_iff given key, c)
  is_key_accepted-refuses key none none h = λ c. ground (arith, is_empty_iff key, eq_iff "" key, c)

-- What a publication that is let in does: it sends the event of its payload to its subjects.
module _ ⦃j : Json⦄ (live : ℕ → Bool) where
  pub record IsPublished (state : GatewayState) (req : PublishRequest) (requeued_at : ℤ)
      (after : GatewayState) : Type 0 where
    pub subjects : List String
    pub event : String
    pub named : req.subjects ≡ some subjects
    pub some_of_them : is_nil subjects ≡ false
    pub written : event_text req.payload ≡ some event
    pub sent :
        after ≡ (send_to_subjects live state subjects event true none requeued_at requeued_at).0

  is_nil_eq : (xs : List String) → is_nil xs ≡ true → xs ≡ []
  is_nil_eq [] h = refl
  is_nil_eq (x ∷ xs) h = cc

  given_subjects :
      (o : Option (List String)) → is_nil (unwrap_or o []) ≡ false → o ≡ some (unwrap_or o [])
  given_subjects none h = cc
  given_subjects (some xs) h = refl

  -- A publication is answered with 200 and its event is sent to its subjects; or with 400, or with
  -- 401, and the state stays as it was. The first two have a key that the configuration accepts (or
  -- this has none), the last has not. The first names a subject and its payload can be written; the
  -- second names no subject or its payload cannot be written.
  pub publish_cases :
      (state : GatewayState) (gateway_api_key : String) (header_key : Option String)
      (req : PublishRequest) (requeued_at : ℤ)
      → let (after, answer) = publish live state gateway_api_key header_key req requeued_at in
        ((answer.status ≡ 200)
          × IsLetIn gateway_api_key header_key req.api_key
          × IsPublished state req requeued_at after)
        ⊎ (((answer.status ≡ 400)
              × IsLetIn gateway_api_key header_key req.api_key
              × ((unwrap_or req.subjects [] ≡ []) ⊎ (event_text req.payload ≡ none))
              × (after ≡ state))
            ⊎ ((answer.status ≡ 401)
                × ¬ (IsLetIn gateway_api_key header_key req.api_key)
                × (after ≡ state)))
  unfolding publish refusal
  publish_cases state gateway_api_key header_key req requeued_at =
      elim (Bool-cases (is_key_accepted gateway_api_key header_key req.api_key)) [
        | inr e ↦
            let kept_out = is_key_accepted-refuses gateway_api_key header_key req.api_key e in
            rw (e, publish) (inr (inr (refl, kept_out, refl)))
        | inl e ↦ elim (Bool-cases (is_nil (unwrap_or req.subjects []))) [
          | inl f ↦
              let let_in = is_key_accepted-IsLetIn gateway_api_key header_key req.api_key e in
              rw (e, f, publish) (inr (inl (refl, let_in, inl (is_nil_eq _ f), refl)))
          | inr f ↦ elim (Option-cases (event_text req.payload)) [
            | inl g ↦
                let let_in = is_key_accepted-IsLetIn gateway_api_key header_key req.api_key e in
                rw (e, f, g, publish) (inr (inl (refl, let_in, inr refl, refl)))
            | inr (event, g) ↦
                let published : IsPublished state req requeued_at
                    (send_to_subjects live state (unwrap_or req.subjects []) event true none
                      requeued_at requeued_at).0 =
                  record {
                    subjects = unwrap_or req.subjects [];
                    event = event;
                    named = given_subjects req.subjects f;
                    some_of_them = f;
                    written = g;
                    sent = refl;
                  } in
                let let_in = is_key_accepted-IsLetIn gateway_api_key header_key req.api_key e in
                rw (e, f, g, publish) (inl (refl, let_in, published))
          ]
        ]
      ]

-- What is listed without a subject and for a user: the connections of that user, all of them and no
-- others.
pub list_connections_iff :
    (state : GatewayState) (user_id : String) (info : ConnectionInfo)
    → In info (connections_of state none (some user_id))
      ↔ (In info (map (λ e. e.1.info) state.connections) × (info.user_id ≡ user_id))
unfolding connections_of
list_connections_iff state user_id info = (
  λ i.
      let (place, e) =
        In-of_retain (is_listed none (some user_id)) info (map (λ e. e.1.info) state.connections)
          i in
      (place, (eq_iff info.user_id user_id).0 e),
  λ (place, e).
      In-retain (is_listed none (some user_id)) info (map (λ e. e.1.info) state.connections) place
        ((eq_iff info.user_id user_id).1 e),
)
