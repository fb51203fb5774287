-- ===== src/Routes/Validity.antt =====
-- What a valid pair of command tables guarantees to the handlers that look commands up.
use rust_http3_gateway.Prelude.{
  true, false, not, subst, String, List, [], ◌∷◌, Option, none, some, is_some, ◌==◌, eq_iff, retain,
  any, is_empty, trim, ◌≡◌, refl, ◌≢◌, arith, Bool-cases, inl, inr, ◌↔◌, All, In-All, In-retain,
  In-of_find,
}
use mathlib.Core.Option
use rust_http3_gateway.Registry.{relay_authorization_registry}
use rust_http3_gateway.Routes.Types.{
  RoutingClass, no_auth, gateway_local, relay_hotpath, backend_control, technical, event,
  fixed_peer, is_relay_hotpath, CommandSpec, RelayAuthorizationSpec, RelayAuthorizationEntry,
}
use rust_http3_gateway.Routes.{
  command_registry, find_command, find_authorization, valid, check_class, check_rows,
  check_authorization, check_relays, check_others, validate_tables, validate_command_registry,
  resolve_command_spec, resolve_relay_authorization_spec,
}

registry_is_valid : validate_command_registry ≡ valid
unfolding validate_command_registry trim
registry_is_valid = refl

-- What one row promises, by its routing class.
abbrev pub IsClassValid : RoutingClass → CommandSpec → Type 0
IsClassValid no_auth spec = (spec.message_type ≡ technical) × (spec.mirror_to_backend ≡ false)
IsClassValid gateway_local spec = (spec.message_type ≡ technical) × (spec.mirror_to_backend ≡ false)
IsClassValid relay_hotpath spec = spec.message_type ≢ technical
IsClassValid backend_control spec =
    (spec.message_type ≢ technical) × (spec.mirror_to_backend ≡ false)

pub record IsRowValid (spec : CommandSpec) : Type 0 where
  pub named : is_empty (trim spec.command_name) ≡ false
  pub inbound : spec.message_type ≢ event
  pub by_class : IsClassValid spec.routing_class spec

check_class_iff :
    (class : RoutingClass) (spec : CommandSpec)
    → (check_class class spec ≡ valid) ↔ IsClassValid class spec
unfolding check_class
check_class_iff no_auth spec = (ground arith, ground arith)
check_class_iff gateway_local spec = (ground arith, ground arith)
check_class_iff relay_hotpath spec = (ground arith, ground arith)
check_class_iff backend_control spec = (ground arith, ground arith)

-- No row has a name that is among the names seen, or that a row before it has.
abbrev pub AreDistinct : List String → List CommandSpec → Type 0
AreDistinct seen [] = Unit
AreDistinct seen (spec ∷ rest) =
    (any (λ name. name == spec.command_name) seen ≡ false)
    × AreDistinct (spec.command_name ∷ seen) rest

check_rows_iff :
    (seen : List String) (rows : List CommandSpec)
    → (check_rows seen rows ≡ valid) ↔ (All IsRowValid rows × AreDistinct seen rows)
unfolding check_rows
check_rows_iff seen [] = (λ e. (tt, tt), λ h. refl)
check_rows_iff seen (spec ∷ rest) =
    let here = check_class_iff spec.routing_class spec in
    let later = check_rows_iff (spec.command_name ∷ seen) rest in
    (
      λ e. (
        (
          record { named = ground arith; inbound = ground arith; by_class = here.0 (ground arith) },
          (later.0 (ground arith)).0,
        ),
        (ground arith, (later.0 (ground arith)).1),
      ),
      λ ((row, rows), (fresh, distinct)).
          let sound = here.1 row.by_class in
          let others = later.1 (rows, distinct) in
          let named = row.named in let inbound = row.inbound in ground arith,
    )

abbrev pub IsAuthorizationValid : Option RelayAuthorizationSpec → Type 0
IsAuthorizationValid none = ⊥
IsAuthorizationValid (some spec) =
    (is_empty (trim spec.command_family) ≡ false)
    × (is_empty (trim spec.operation_key_field) ≡ false)

check_authorization_iff :
    (name : String) (found : Option RelayAuthorizationSpec)
    → (check_authorization name found ≡ valid) ↔ IsAuthorizationValid found
unfolding check_authorization
check_authorization_iff name none = (λ e. cc, λ h. absurd h)
check_authorization_iff name (some spec) = (ground arith, ground arith)

IsAuthorizationValid-some :
    (found : Option RelayAuthorizationSpec) → IsAuthorizationValid found → is_some found ≡ true
IsAuthorizationValid-some none h = absurd h
IsAuthorizationValid-some (some spec) h = refl

is_relay_hotpath_eq : (class : RoutingClass) → is_relay_hotpath class ≡ true → class ≡ relay_hotpath
is_relay_hotpath_eq class h = ground arith

module _ (entries : List RelayAuthorizationEntry) where
  abbrev pub HasAuthorization : CommandSpec → Type 0
  HasAuthorization spec = IsAuthorizationValid (find_authorization entries spec.command_name)

  abbrev pub HasNone : CommandSpec → Type 0
  HasNone spec = find_authorization entries spec.command_name ≡ none

  check_relays_iff :
      (rows : List CommandSpec) → (check_relays entries rows ≡ valid) ↔ All HasAuthorization rows
  unfolding check_relays
  check_relays_iff [] = (λ e. tt, λ h. refl)
  check_relays_iff (spec ∷ rest) =
      let here =
        check_authorization_iff spec.command_name (find_authorization entries spec.command_name) in
      let later = check_relays_iff rest in
      (
        λ e. (here.0 (ground arith), later.0 (ground arith)),
        λ (h, hs). let p = here.1 h in let q = later.1 hs in ground arith,
      )

  check_others_iff :
      (rows : List CommandSpec) → (check_others entries rows ≡ valid) ↔ All HasNone rows
  unfolding check_others
  check_others_iff [] = (λ e. tt, λ h. refl)
  check_others_iff (spec ∷ rest) =
      let later = check_others_iff rest in
      (λ e. (ground arith, later.0 (ground arith)), λ (h, hs). let q = later.1 hs in rw (h, q))

  -- The two tables fit: what the start-up check is there to establish.
  pub record AreTablesValid (rows : List CommandSpec) : Type 0 where
    pub rows_valid : All IsRowValid rows
    pub distinct : AreDistinct [] rows
    pub relays : All HasAuthorization (retain (λ spec. is_relay_hotpath spec.routing_class) rows)
    pub others : All HasNone (retain (λ spec. not (is_relay_hotpath spec.routing_class)) rows)

  -- The check passes exactly the tables whose rows are valid, whose names are distinct, and which
  -- have valid authorization data for the relay commands and none for the others.
  pub validate_tables_iff :
      (rows : List CommandSpec) → (validate_tables entries rows ≡ valid) ↔ AreTablesValid rows
  unfolding validate_tables
  validate_tables_iff rows =
      let first = check_rows_iff [] rows in
      let second = check_relays_iff (retain (λ spec. is_relay_hotpath spec.routing_class) rows) in
      let third =
        check_others_iff (retain (λ spec. not (is_relay_hotpath spec.routing_class)) rows) in
      (
        λ e. record {
          rows_valid = (first.0 (ground arith)).0;
          distinct = (first.0 (ground arith)).1;
          relays = second.0 (ground arith);
          others = third.0 (ground arith);
        },
        λ v.
            let p = first.1 (v.rows_valid, v.distinct) in
            let q = second.1 v.relays in let r = third.1 v.others in rw (p, q, r),
      )

  -- A command found in valid tables.
  pub record IsResolved (name : String) (spec : CommandSpec) : Type 0 where
    pub same_name : spec.command_name ≡ name
    pub row : IsRowValid spec
    pub relay_iff :
        (spec.routing_class ≡ relay_hotpath) ↔ (is_some (find_authorization entries name) ≡ true)

  pub find_command-IsResolved :
      (rows : List CommandSpec) (name : String) (spec : CommandSpec)
      → validate_tables entries rows ≡ valid
      → find_command rows name ≡ some spec
      → IsResolved name spec
  unfolding find_command
  find_command-IsResolved rows name spec v e =
      let tables = (validate_tables_iff rows).0 v in
      let (place, hit) = In-of_find (λ s. s.command_name == name) spec rows e in
      let same = (eq_iff spec.command_name name).0 hit in
      record {
        same_name = same;
        row = In-All IsRowValid spec rows tables.rows_valid place;
        relay_iff = elim (Bool-cases (is_relay_hotpath spec.routing_class)) [
          | inl relay ↦
              let has =
                In-All HasAuthorization spec _ tables.relays
                  (In-retain (λ s. is_relay_hotpath s.routing_class) spec rows place relay) in
              let found =
                IsAuthorizationValid-some (find_authorization entries name) (rw same at has) in
              (λ _. found, λ _. is_relay_hotpath_eq spec.routing_class relay)
          | inr other ↦
              let has = In-All HasNone spec _ tables.others (
                In-retain (λ s. not (is_relay_hotpath s.routing_class)) spec rows place
                  (rw other)) in
              let missing : find_authorization entries name ≡ none = rw same at has in
              (λ e. cc (rw e at other), λ e. cc (rw missing at e))
        ];
      }

-- Every command that the gateway's own tables resolve has the name asked for and a valid row,
-- and it is a relay command exactly when authorization data is found under its name.
pub resolve_command_spec-IsResolved :
    (name : String) (spec : CommandSpec)
    → resolve_command_spec name ≡ some spec
    → IsResolved relay_authorization_registry name spec
unfolding resolve_command_spec validate_command_registry
resolve_command_spec-IsResolved name spec e =
    find_command-IsResolved relay_authorization_registry command_registry name spec
      registry_is_valid e

abbrev pub IsFileTransfer : String → RelayAuthorizationSpec → Type 0
IsFileTransfer name auth =
    (auth.command_family ≡ "file_transfer")
    × (auth.operation_key_field ≡ "transfer_id")
    × (auth.audience_scope_mode ≡ fixed_peer)
    × (auth.requires_relay_context ≡ not (name == "file_transfer_offer"))

entries-IsFileTransfer :
    All (λ entry. IsFileTransfer entry.command_name entry.spec) relay_authorization_registry
unfolding relay_authorization_registry
entries-IsFileTransfer = (
  (refl, refl, refl, refl),
  (
    (refl, refl, refl, refl),
    (
      (refl, refl, refl, refl),
      (
        (refl, refl, refl, refl),
        (
          (refl, refl, refl, refl),
          (
            (refl, refl, refl, refl),
            (
              (refl, refl, refl, refl),
              (
                (refl, refl, refl, refl),
                (
                  (refl, refl, refl, refl),
                  (
                    (refl, refl, refl, refl),
                    (
                      (refl, refl, refl, refl),
                      ((refl, refl, refl, refl), ((refl, refl, refl, refl), tt)),
                    ),
                  ),
                ),
              ),
            ),
          ),
        ),
      ),
    ),
  ),
)

-- Every relay command belongs to the file transfers between two peers, and all but the offer that
-- opens one need a context.
pub resolve_relay_authorization_spec-IsFileTransfer :
    (name : String) (auth : RelayAuthorizationSpec)
    → resolve_relay_authorization_spec name ≡ some auth
    → IsFileTransfer name auth
unfolding resolve_relay_authorization_spec
resolve_relay_authorization_spec-IsFileTransfer name auth e =
    let (entry, found, same) = (Option.map-eq-some_iff _ _).0 e in
    let (place, hit) =
      In-of_find (λ s. s.command_name == name) entry relay_authorization_registry found in
    let facts =
      In-All (λ s. IsFileTransfer s.command_name s.spec) entry relay_authorization_registry
        entries-IsFileTransfer place in
    let named = (eq_iff entry.command_name name).0 hit in
    subst (IsFileTransfer name) same (subst (λ n. IsFileTransfer n entry.spec) named facts)
