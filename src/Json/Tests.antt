-- ===== src/Json/Tests.antt =====
-- A concrete JSON, for the tests: its values are trees, and what a text is read as is given.
use rust_http3_gateway.Prelude.{
  Unicode, ℕ, ℤ, pos, Bool, true, false, String, List, [], ◌∷◌, Option, none, some, Map, lookup,
  ◌==◌, ◌≡◌, refl, if◌then◌else◌,
}
use rust_http3_gateway.Json.{Json}
use rust_http3_gateway.Json.Laws.{JsonLaws}

mutual
  pub data Tree : Type 0 where
    null_tree : Tree
    flag : Bool → Tree
    number : ℤ → Tree
    word : String → Tree
    items : Trees → Tree
    entries : Fields → Tree

  pub data Trees : Type 0 where
    no_trees : Trees
    a_tree : Tree → Trees → Trees

  pub data Fields : Type 0 where
    no_fields : Fields
    a_field : String → Tree → Fields → Fields

abbrev pub trees_of : List Tree → Trees
trees_of [] = no_trees
trees_of (t ∷ ts) = a_tree t (trees_of ts)

abbrev pub list_of : Trees → List Tree
list_of no_trees = []
list_of (a_tree t ts) = t ∷ list_of ts

abbrev pub fields_of : Map Tree → Fields
fields_of [] = no_fields
fields_of ((k, t) ∷ m) = a_field k t (fields_of m)

abbrev pub map_of : Fields → Map Tree
map_of no_fields = []
map_of (a_field k t m) = (k, t) ∷ map_of m

abbrev pub put : String → Tree → Map Tree → Map Tree
put key t [] = (key, t) ∷ []
put key t ((k, u) ∷ m) = if k == key then (key, t) ∷ m else (k, u) ∷ put key t m

unfoldable pub get_tree : String → Tree → Option Tree
unfolding lookup
get_tree key (entries m) = lookup key (map_of m)
get_tree key _ = none

abbrev pub set_tree : String → Tree → Tree → Option Tree
set_tree key t (entries m) = some (entries (fields_of (put key t (map_of m))))
set_tree key t null_tree = some (entries (a_field key t no_fields))
set_tree key t _ = none

abbrev pub word_of : Tree → Option String
word_of (word s) = some s
word_of _ = none

abbrev pub flag_of : Tree → Option Bool
flag_of (flag b) = some b
flag_of _ = none

abbrev pub int_of : Tree → Option ℤ
int_of (number n) = some n
int_of _ = none

abbrev pub nat_of : Tree → Option ℕ
nat_of (number (pos n)) = some n
nat_of _ = none

abbrev pub trees : Tree → Option (List Tree)
trees (items ts) = some (list_of ts)
trees _ = none

abbrev pub has_fields : Tree → Bool
has_fields (entries m) = true
has_fields _ = false

abbrev pub is_null_tree : Tree → Bool
is_null_tree null_tree = true
is_null_tree _ = false

abbrev pub is_word : Tree → Bool
is_word (word s) = true
is_word _ = false

-- Every value is written as the same text.
abbrev pub json_reading : (String → Option Tree) → Json
json_reading read = record {
  Value = Tree;
  null = null_tree;
  boolean = flag;
  integer = number;
  string = word;
  array = λ ts. items (trees_of ts);
  object = λ m. entries (fields_of m);
  get = get_tree;
  set = set_tree;
  as_str = word_of;
  as_bool = flag_of;
  as_i64 = int_of;
  as_u64 = nat_of;
  as_array = trees;
  is_object = has_fields;
  is_null = is_null_tree;
  is_string = is_word;
  from_str = read;
  to_string = λ t. some "{}";
}

map_of-fields_of : (m : Map Tree) → map_of (fields_of m) ≡ m
map_of-fields_of [] = refl
map_of-fields_of ((k, t) ∷ m) = rw (map_of-fields_of m)

get-HasFields : (key : String) (v w : Tree) → get_tree key v ≡ some w → has_fields v ≡ true
unfolding get_tree
get-HasFields key null_tree w h = cc
get-HasFields key (flag b) w h = cc
get-HasFields key (number n) w h = cc
get-HasFields key (word s) w h = cc
get-HasFields key (items ts) w h = cc
get-HasFields key (entries m) w h = refl

set-HasFields :
    (key : String) (x v : Tree) → has_fields v ≡ true → (w : Tree) × (set_tree key x v ≡ some w)
set-HasFields key x null_tree h = cc
set-HasFields key x (flag b) h = cc
set-HasFields key x (number n) h = cc
set-HasFields key x (word s) h = cc
set-HasFields key x (items ts) h = cc
set-HasFields key x (entries m) h = (_, refl)

pub json_reading-laws : (read : String → Option Tree) → JsonLaws ⦃j = json_reading read⦄
unfolding get_tree lookup
json_reading-laws read = record {
  as_str-string = λ s. refl;
  get-object = λ key m d. rw (map_of-fields_of m);
  get-IsObject = get-HasFields;
  set-object = set-HasFields;
}

-- The letters outside ASCII are left as they are.
instance abbrev pub plain_case : Unicode
plain_case = record { lower = λ s. s }
