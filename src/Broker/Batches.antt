-- ===== src/Broker/Batches.antt =====
-- broker.rs: the place of the consumer in the stream, and what it deletes.
use rust_http3_gateway.Prelude.{
  ℕ, Bool, true, String, List, [], ◌∷◌, ◌++◌, Option, none, some, lookup, Map, is_nil, In, here,
  there, In-of_append, map, if_both, if_cases, Unicode, ◌≡◌, refl, ◌⊎◌, inl, inr, Option-cases,
  if◌then◌else◌, unwrap_or,
}
use rust_http3_gateway.Json.{Json, event_text}
use rust_http3_gateway.State.Types.{GatewayState}
use rust_http3_gateway.Broker.Snapshot.{parse_relay_context_snapshot, texts_field}
use rust_http3_gateway.Broker.Outbox.{
  EntryReadings, Consumer, dispatch_payload, consume_decoded, consume_entry, consume_entries,
}

-- The id of the last entry, or what it was.
abbrev pub last_entry {ℓ} : {F : Type ℓ} → String → List (String × F) → String
last_entry last_id [] = last_id
last_entry last_id ((id, fields) ∷ rest) = last_entry id rest

module _ ⦃u : Unicode⦄ ⦃j : Json⦄ (live : ℕ → Bool) (delete : Bool)
    (at : String → EntryReadings) where
  deletes_only_if_told :
      (s : GatewayState) (decoded : Option j.Value) (readings : EntryReadings)
      → (consume_decoded live s delete decoded readings).1 ≡ true
      → delete ≡ true
  unfolding consume_decoded dispatch_payload
  deletes_only_if_told s none readings = λ h. cc
  deletes_only_if_told s (some decoded) readings =
      let P = λ (x : GatewayState × Bool). x.1 ≡ true → delete ≡ true in
      let payload = unwrap_or (j.get "payload" decoded) j.null in
      if_both P (is_nil (texts_field "subjects" decoded)) (λ h. cc)
        (elim (Option-cases (parse_relay_context_snapshot payload readings.received_at)) [
          | inr (snapshot, parsed) ↦ rw parsed (λ h. cc)
          | inl other ↦ elim (Option-cases (event_text payload)) [
            | inl missing ↦ rw (other, dispatch_payload, missing) (λ h. cc)
            | inr (event, found) ↦ rw (other, dispatch_payload, found) (λ h. h)
          ]
        ])

  -- After a batch the place of the consumer is its last entry, or where it was if there is none, and
  -- an entry is deleted only if the configuration says so and it is one of the batch.
  pub consume_entries_place :
      (entries : List (String × Map String)) (c : Consumer)
      → let after = consume_entries live delete at entries c in
        (after.last_id ≡ last_entry c.last_id entries)
        × ((id : String)
            → In id after.deleted
            → In id c.deleted ⊎ ((delete ≡ true) × In id (map (λ e. e.0) entries)))
  unfolding consume_entries consume_entry
  consume_entries_place [] c = (refl, λ id i. inl i)
  consume_entries_place ((entry_id, fields) ∷ rest) c =
      let consumed =
        consume_decoded live c.state delete (j.from_str (unwrap_or (lookup "data" fields) "{}"))
          (at entry_id) in
      let next : Consumer = record {
        state = consumed.0;
        last_id = entry_id;
        deleted = if consumed.1 then c.deleted ++ entry_id ∷ [] else c.deleted;
      } in
      let (place, deletions) = consume_entries_place rest next in
      (
        place,
        λ id i. elim (deletions id i) [
          | inr (told, later) ↦ inr (told, there later)
          | inl before ↦
              if_cases
                (λ xs.
                  In id xs
                  → In id c.deleted ⊎ ((delete ≡ true) × In id (entry_id ∷ map (λ e. e.0) rest)))
                consumed.1
                (λ yes_ k. elim (In-of_append id c.deleted (entry_id ∷ []) k) [
                  | inl old ↦ inl old
                  | inr (here e) ↦ inr (deletes_only_if_told c.state _ (at entry_id) yes_, here e)
                  | inr (there none_left) ↦ elim none_left [ ]
                ])
                (λ no_ k. inl k) before
        ],
      )
