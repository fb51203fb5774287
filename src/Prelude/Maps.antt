-- ===== src/Prelude/Maps.antt =====
-- Maps with texts for keys (`DashMap`, `HashMap`), as association lists in the order of iteration.
use Prim.Native.String.{String}
use mathlib.Core.Path.{◌≡◌, refl}
use mathlib.Core.Logic.{◌≢◌, ite}
use mathlib.Core.Bool.{Bool, true, false}
use mathlib.Core.List.{List, [], ◌∷◌, map}
use mathlib.Core.Option.{Option, none, some}
use native.Mathlib.Omega.{arith}
use text.Mathlib.Text.{◌==◌}
use text.Mathlib.TextEquality.{eq_iff}
use rust_http3_gateway.Prelude.Tests.{str_dec, if◌then◌else◌}
use rust_http3_gateway.Prelude.Lists.{In, here, there, All, In-All, any, retain}

abbrev pub Map {ℓ} : Type ℓ → Type ℓ
Map V = List (String × V)

module _ {ℓ} {V : Type ℓ} where
  unfoldable pub lookup : String → Map V → Option V
  lookup k [] = none
  lookup k ((j, v) ∷ m) = ite (str_dec j k) (some v) (lookup k m)

  -- A key that is there keeps its place.
  unfoldable pub insert : String → V → Map V → Map V
  insert k v [] = (k, v) ∷ []
  insert k v ((j, w) ∷ m) = ite (str_dec j k) ((k, v) ∷ m) ((j, w) ∷ insert k v m)

  unfoldable pub remove : String → Map V → Map V
  remove k [] = []
  remove k ((j, w) ∷ m) = ite (str_dec j k) (remove k m) ((j, w) ∷ remove k m)

  abbrev pub remove_all : List String → Map V → Map V
  remove_all [] m = m
  remove_all (k ∷ ks) m = remove_all ks (remove k m)

  abbrev pub contains_key : String → Map V → Bool
  contains_key k m = elim (lookup k m) [ none ↦ false | some v ↦ true ]

  abbrev pub keys : Map V → List String
  keys m = map (λ e. e.0) m

  pub lookup-insert :
      (k j : String) (v : V) (m : Map V)
      → lookup j (insert k v m) ≡ ite (str_dec k j) (some v) (lookup j m)
  unfolding lookup insert
  lookup-insert k j v [] = refl
  lookup-insert k j v ((i, w) ∷ m) = ground (arith, lookup-insert k j v m)

  pub lookup-remove :
      (k j : String) (m : Map V) → lookup j (remove k m) ≡ ite (str_dec k j) none (lookup j m)
  unfolding lookup remove
  lookup-remove k j [] = ground arith
  lookup-remove k j ((i, w) ∷ m) = ground (arith, lookup-remove k j m)

  pub lookup-insert_self : (k : String) (v : V) (m : Map V) → lookup k (insert k v m) ≡ some v
  lookup-insert_self k v m = ground (arith, lookup-insert k k v m)

  pub lookup-insert_ne :
      (k j : String) (v : V) (m : Map V) → k ≢ j → lookup j (insert k v m) ≡ lookup j m
  lookup-insert_ne k j v m h = ground (arith, lookup-insert k j v m)

  pub lookup-remove_self : (k : String) (m : Map V) → lookup k (remove k m) ≡ none
  lookup-remove_self k m = ground (arith, lookup-remove k k m)

  pub lookup-remove_ne : (k j : String) (m : Map V) → k ≢ j → lookup j (remove k m) ≡ lookup j m
  lookup-remove_ne k j m h = ground (arith, lookup-remove k j m)

  -- No key stands twice.
  abbrev pub Distinct : Map V → Type ℓ
  Distinct [] = Unit
  Distinct ((k, v) ∷ m) = (lookup k m ≡ none) × Distinct m

  pub insert-Distinct : (k : String) (v : V) (m : Map V) → Distinct m → Distinct (insert k v m)
  unfolding insert lookup
  insert-Distinct k v [] d = (refl, tt)
  insert-Distinct k v ((j, w) ∷ m) d =
      elim (str_dec j k) as (λ x. Distinct (ite x ((k, v) ∷ m) ((j, w) ∷ insert k v m))) [
        | yes e ↦ ground arith
        | no n ↦ (ground (arith, lookup-insert k j v m), insert-Distinct k v m d.1)
      ]

  pub remove-Distinct : (k : String) (m : Map V) → Distinct m → Distinct (remove k m)
  unfolding remove
  remove-Distinct k [] d = tt
  remove-Distinct k ((j, w) ∷ m) d =
      elim (str_dec j k) as (λ x. Distinct (ite x (remove k m) ((j, w) ∷ remove k m))) [
        | yes e ↦ remove-Distinct k m d.1
        | no n ↦ (ground (arith, lookup-remove k j m), remove-Distinct k m d.1)
      ]

  pub remove_all-Distinct : (ks : List String) (m : Map V) → Distinct m → Distinct (remove_all ks m)
  remove_all-Distinct [] m d = d
  remove_all-Distinct (k ∷ ks) m d = remove_all-Distinct ks (remove k m) (remove-Distinct k m d)

  -- With distinct keys, the entries met by iteration are those found by their keys.
  pub lookup_of_In :
      (k : String) (v : V) (m : Map V) → Distinct m → In (k, v) m → lookup k m ≡ some v
  unfolding lookup
  lookup_of_In k v [] d i = elim i [ ]
  lookup_of_In k v ((j, w) ∷ m) d (here e) = ground arith
  lookup_of_In k v ((j, w) ∷ m) d (there i) = ground (arith, lookup_of_In k v m d.1 i)

  pub In-of_lookup : (k : String) (v : V) (m : Map V) → lookup k m ≡ some v → In (k, v) m
  unfolding lookup
  In-of_lookup k v [] h = cc
  In-of_lookup k v ((j, w) ∷ m) h = elim (str_dec j k) [
    | yes e ↦ here (ground arith)
    | no n ↦ there (In-of_lookup k v m (ground arith))
  ]

  pub All-insert {κ} :
      (P : String × V → Type κ) (k : String) (v : V) (m : Map V)
      → All P m
      → P (k, v)
      → All P (insert k v m)
  unfolding insert
  All-insert P k v [] h p = (p, tt)
  All-insert P k v ((j, w) ∷ m) h p =
      elim (str_dec j k) as (λ x. All P (ite x ((k, v) ∷ m) ((j, w) ∷ insert k v m))) [
        | yes e ↦ (p, h.1)
        | no n ↦ (h.0, All-insert P k v m h.1 p)
      ]

  pub All-remove {κ} :
      (P : String × V → Type κ) (k : String) (m : Map V) → All P m → All P (remove k m)
  unfolding remove
  All-remove P k [] h = tt
  All-remove P k ((j, w) ∷ m) h =
      elim (str_dec j k) as (λ x. All P (ite x (remove k m) ((j, w) ∷ remove k m))) [
        | yes e ↦ All-remove P k m h.1
        | no n ↦ (h.0, All-remove P k m h.1)
      ]

  pub All-lookup {κ} :
      (P : String × V → Type κ) (k : String) (v : V) (m : Map V)
      → All P m
      → lookup k m ≡ some v
      → P (k, v)
  All-lookup P k v m h e = In-All P (k, v) m h (In-of_lookup k v m e)

  pub lookup-remove_all :
      (ks : List String) (j : String) (m : Map V)
      → lookup j (remove_all ks m) ≡ (if any (λ k. k == j) ks then none else lookup j m)
  lookup-remove_all [] j m = refl
  lookup-remove_all (k ∷ ks) j m =
      ground (arith, lookup-remove_all ks j (remove k m), lookup-remove k j m, eq_iff k j)

  pub any-keys-retain_missing :
      (p : String × V → Bool) (j : String) (m : Map V)
      → lookup j m ≡ none
      → any (λ k. k == j) (keys (retain p m)) ≡ false
  unfolding lookup
  any-keys-retain_missing p j [] e = refl
  any-keys-retain_missing p j ((i, w) ∷ m) e =
      ground (arith, eq_iff i j, any-keys-retain_missing p j m)

  -- With distinct keys, a key is among those of the entries kept when its own entry is.
  pub any-keys-retain :
      (p : String × V → Bool) (j : String) (v : V) (m : Map V)
      → Distinct m
      → lookup j m ≡ some v
      → any (λ k. k == j) (keys (retain p m)) ≡ p (j, v)
  unfolding lookup
  any-keys-retain p j v [] d e = cc
  any-keys-retain p j v ((i, w) ∷ m) d e = elim (str_dec i j) [
    | yes same ↦ ground (arith, eq_iff i j, any-keys-retain_missing p j m)
    | no other ↦ ground (arith, eq_iff i j, any-keys-retain p j v m d.1)
  ]
