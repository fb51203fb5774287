-- ===== src/State/Sessions/Index.antt =====
-- state.rs: the index from subjects to connections, and the operations on connections that keep it.
use rust_http3_gateway.Prelude.{
  true, not, String, List, [], ◌∷◌, ◌++◌, none, some, ◌≡◌, refl, sym, subst, ◌≢◌, inl, inr, arith,
  Map, lookup, insert, remove, ◌==◌, eq_iff, is_nil, any, retain, All, All-insert, All-imp, In,
  here, there, In-retain, any_sound, lookup-insert, lookup-insert_self, lookup-remove, str_dec, ite,
  unwrap_or, Bool-cases, Option-cases,
}
use rust_http3_gateway.State.Types.{GatewayState, ConnectionHandle}
use rust_http3_gateway.State.Sessions.{
  add_to_set, index_subjects, unindex, unindex_subjects, unregister_connection,
}

-- The connections of a subject.
abbrev pub ids_of : String → Map (List String) → List String
ids_of subject index = unwrap_or (lookup subject index) []

abbrev pub IsFound : Map (List String) → String → String → Type 0
IsFound index id subject = In id (ids_of subject index)

-- Each connection is found at each of its subjects.
abbrev pub IsIndexed : Map ConnectionHandle → Map (List String) → Type 0
IsIndexed connections index =
    All (λ entry. All (IsFound index entry.0) entry.1.info.subjects) connections

pub In-append : {A : Type 0} (x : A) (xs ys : List A) → In x xs → In x (xs ++ ys)
In-append x [] ys i = elim i [ ]
In-append x (y ∷ xs) ys (here e) = here e
In-append x (y ∷ xs) ys (there i) = there (In-append x xs ys i)

pub In-at_end : {A : Type 0} (x : A) (xs : List A) → In x (xs ++ x ∷ [])
In-at_end x [] = here refl
In-at_end x (y ∷ xs) = there (In-at_end x xs)

pub add_to_set_keeps : (i id : String) (ids : List String) → In i ids → In i (add_to_set id ids)
add_to_set_keeps i id ids h = elim (Bool-cases (any (λ j. j == id) ids)) [
  | inl there_already ↦ rw there_already h
  | inr new_one ↦ rw new_one (In-append i ids (id ∷ []) h)
]

pub add_to_set_adds : (id : String) (ids : List String) → In id (add_to_set id ids)
add_to_set_adds id ids = elim (Bool-cases (any (λ j. j == id) ids)) [
  | inl there_already ↦ rw there_already (
      let (j, i, e) = any_sound (λ j. j == id) ids there_already in
      subst (λ k. In k ids) ((eq_iff j id).0 e) i)
  | inr new_one ↦ rw new_one (In-at_end id ids)
]

absurd_nil : {C : Type 0} (i : String) (ids : List String) → is_nil ids ≡ true → In i ids → C
absurd_nil i [] e h = elim h [ ]
absurd_nil i (j ∷ ids) e h = cc

-- One more id at one subject.
insert_keeps :
    (i s subject : String) (ids : List String) (index : Map (List String))
    → (subject ≡ s → In i ids)
    → In i (ids_of s index)
    → In i (ids_of s (insert subject ids index))
insert_keeps i s subject ids index same h =
    rw (lookup-insert subject s ids index)
      (elim (str_dec subject s) as (λ x. In i (unwrap_or (ite x (some ids) (lookup s index)) [])) [
        | yes e ↦ same e
        | no n ↦ h
      ])

index_subjects_keeps :
    (i id s : String) (subjects : List String) (index : Map (List String))
    → In i (ids_of s index)
    → In i (ids_of s (index_subjects id subjects index))
unfolding index_subjects
index_subjects_keeps i id s [] index h = h
index_subjects_keeps i id s (subject ∷ rest) index h =
    index_subjects_keeps i id s rest (insert subject (add_to_set id (ids_of subject index)) index) (
      insert_keeps i s subject (add_to_set id (ids_of subject index)) index
        (λ e.
          add_to_set_keeps i id (ids_of subject index)
            (subst (λ k. In i (ids_of k index)) (sym e) h))
        h)

index_subjects_adds :
    (id : String) (subjects : List String) (index : Map (List String))
    → All (IsFound (index_subjects id subjects index) id) subjects
unfolding index_subjects
index_subjects_adds id [] index = tt
index_subjects_adds id (subject ∷ rest) index =
    let grown = insert subject (add_to_set id (ids_of subject index)) index in
    (
      index_subjects_keeps id id subject rest grown (
          rw (lookup-insert_self subject (add_to_set id (ids_of subject index)) index)
            (add_to_set_adds id (ids_of subject index))),
      index_subjects_adds id rest grown,
    )

not_same : (i id : String) → i ≢ id → not (i == id) ≡ true
not_same i id n = ground (arith, eq_iff i id)

unindex_keeps :
    (i id s subject : String) (index : Map (List String))
    → i ≢ id
    → In i (ids_of s index)
    → In i (ids_of s (unindex id subject index))
unfolding unindex
unindex_keeps i id s subject index n h = elim (Option-cases (lookup subject index)) [
  | inl missing ↦ rw (missing, unindex) h
  | inr (ids, found) ↦
      let kept : subject ≡ s → In i (retain (λ j. not (j == id)) ids) = λ e.
        In-retain (λ j. not (j == id)) i ids
          (subst (λ o. In i (unwrap_or o [])) found (subst (λ k. In i (ids_of k index)) (sym e) h))
          (not_same i id n) in
      rw (found, unindex)
        (elim (Bool-cases (is_nil (retain (λ j. not (j == id)) ids))) [
          | inl emptied ↦ rw emptied (
              rw (lookup-remove subject s index)
                (elim (str_dec subject s)
                  as (λ x. In i (unwrap_or (ite x none (lookup s index)) [])) [
                    | yes e ↦ absurd_nil i (retain (λ j. not (j == id)) ids) emptied (kept e)
                    | no m ↦ h
                  ]))
          | inr some_left ↦
              rw some_left (insert_keeps i s subject (retain (λ j. not (j == id)) ids) index kept h)
        ])
]

unindex_subjects_keeps :
    (i id s : String) (subjects : List String) (index : Map (List String))
    → i ≢ id
    → In i (ids_of s index)
    → In i (ids_of s (unindex_subjects id subjects index))
unfolding unindex_subjects
unindex_subjects_keeps i id s [] index n h = h
unindex_subjects_keeps i id s (subject ∷ rest) index n h =
    unindex_subjects_keeps i id s rest (unindex id subject index) n
      (unindex_keeps i id s subject index n h)

remove-All_but :
    {V : Type 0} (P Q : String × V → Type 0) (k : String) (m : Map V)
    → ((j : String) (v : V) → j ≢ k → P (j, v) → Q (j, v))
    → All P m
    → All Q (remove k m)
unfolding remove
remove-All_but P Q k [] f h = tt
remove-All_but P Q k ((j, w) ∷ m) f h =
    elim (str_dec j k) as (λ x. All Q (ite x (remove k m) ((j, w) ∷ remove k m))) [
      | yes e ↦ remove-All_but P Q k m f h.1
      | no n ↦ (f j w n h.0, remove-All_but P Q k m f h.1)
    ]

-- The end of a connection leaves the others at their subjects.
pub unregister_connection-IsIndexed :
    (state : GatewayState) (id : String)
    → IsIndexed state.connections state.subjects
    → let after = (unregister_connection state id).0 in IsIndexed after.connections after.subjects
unfolding unregister_connection
unregister_connection-IsIndexed state id h = elim (Option-cases (lookup id state.connections)) [
  | inl missing ↦ rw (missing, unregister_connection) h
  | inr (handle, found) ↦
      rw (found, unregister_connection)
        (remove-All_but (λ entry. All (IsFound state.subjects entry.0) entry.1.info.subjects)
          (λ entry.
            All (IsFound (unindex_subjects id handle.info.subjects state.subjects) entry.0)
              entry.1.info.subjects)
          id state.connections
          (λ j v n.
            All-imp (IsFound state.subjects j)
              (IsFound (unindex_subjects id handle.info.subjects state.subjects) j)
              (λ s. unindex_subjects_keeps j id s handle.info.subjects state.subjects n)
              v.info.subjects)
          h)
]

-- A new connection is found at its subjects, and the others stay where they are.
pub insert_connection-IsIndexed :
    (connections : Map ConnectionHandle) (index : Map (List String)) (id : String)
    (handle : ConnectionHandle)
    → IsIndexed connections index
    → IsIndexed (insert id handle connections) (index_subjects id handle.info.subjects index)
insert_connection-IsIndexed connections index id handle h =
    let grown = index_subjects id handle.info.subjects index in
    All-insert (λ entry. All (IsFound grown entry.0) entry.1.info.subjects) id handle connections
      (All-imp (λ entry. All (IsFound index entry.0) entry.1.info.subjects)
        (λ entry. All (IsFound grown entry.0) entry.1.info.subjects)
        (λ entry.
          All-imp (IsFound index entry.0) (IsFound grown entry.0)
            (λ s. index_subjects_keeps entry.0 id s handle.info.subjects index)
            entry.1.info.subjects)
        connections h)
      (index_subjects_adds id handle.info.subjects index)
