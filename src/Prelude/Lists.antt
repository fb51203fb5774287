-- ===== src/Prelude/Lists.antt =====
-- Lists measured by native numbers, Boolean searches over them, and a stable insertion sort.
use Prim.Native.Nat.{ℕ, zero, suc, ◌+◌, ◌≤◌}
use mathlib.Core.Path.{◌≡◌, refl, sym, subst}
use mathlib.Core.Bool.{Bool, true, false, ◌&&◌, ◌||◌}
use mathlib.Core.List.{List, [], ◌∷◌, ◌++◌}
use mathlib.Core.Option.{Option, none, some}
use mathlib.Core.Logic.{◌↔◌, ◌⊎◌, inl, inr}
use native.Mathlib.Omega.{arith}
use rust_http3_gateway.Prelude.Tests.{if◌then◌else◌, Bool-cases}

module _ {ℓ} {A : Type ℓ} where
  abbrev pub length : List A → ℕ
  length [] = 0
  length (x ∷ xs) = suc (length xs)

  abbrev pub is_nil : List A → Bool
  is_nil [] = true
  is_nil (x ∷ xs) = false

  abbrev pub take : ℕ → List A → List A
  take zero xs = []
  take (suc n) [] = []
  take (suc n) (x ∷ xs) = x ∷ take n xs

  -- `iter().any(p)`, `iter().all(p)`, `retain(p)` and `iter().find(p)`.
  abbrev pub any : (A → Bool) → List A → Bool
  any p [] = false
  any p (x ∷ xs) = p x || any p xs

  abbrev pub all : (A → Bool) → List A → Bool
  all p [] = true
  all p (x ∷ xs) = p x && all p xs

  abbrev pub retain : (A → Bool) → List A → List A
  retain p [] = []
  retain p (x ∷ xs) = let rest = retain p xs in if p x then x ∷ rest else rest

  abbrev pub find : (A → Bool) → List A → Option A
  find p [] = none
  find p (x ∷ xs) = if p x then some x else find p xs

  -- `sort_by`: stable, so the result does not depend on the algorithm. `before x y` says that `x`
  -- may stand in front of `y`.
  abbrev pub insert_by : (A → A → Bool) → A → List A → List A
  insert_by before x [] = x ∷ []
  insert_by before x (y ∷ ys) =
      let later = y ∷ insert_by before x ys in if before x y then x ∷ y ∷ ys else later

  abbrev pub sort_by : (A → A → Bool) → List A → List A
  sort_by before [] = []
  sort_by before (x ∷ xs) = insert_by before x (sort_by before xs)

  pub length-append : (xs ys : List A) → length (xs ++ ys) ≡ length xs + length ys
  length-append [] ys = omega arith
  length-append (x ∷ xs) ys = omega (arith, length-append xs ys)

  pub length-retain-le : (p : A → Bool) (xs : List A) → length (retain p xs) ≤ length xs
  length-retain-le p [] = omega arith
  length-retain-le p (x ∷ xs) = ground (arith, length-retain-le p xs)

-- What holds of each entry, and what holds of one.
module _ {ℓ κ} {A : Type ℓ} where
  abbrev pub All : (A → Type κ) → List A → Type κ
  All P [] = Unit
  All P (x ∷ xs) = P x × All P xs

  pub All-append : (P : A → Type κ) (xs ys : List A) → All P xs → All P ys → All P (xs ++ ys)
  All-append P [] ys hx hy = hy
  All-append P (x ∷ xs) ys hx hy = (hx.0, All-append P xs ys hx.1 hy)

  pub All-retain : (P : A → Type κ) (p : A → Bool) (xs : List A) → All P xs → All P (retain p xs)
  All-retain P p [] h = tt
  All-retain P p (x ∷ xs) h = elim (Bool-cases (p x)) [
    | inl keep ↦ rw keep (h.0, All-retain P p xs h.1)
    | inr drop ↦ rw drop (All-retain P p xs h.1)
  ]

module _ {ℓ κ μ} {A : Type ℓ} where
  pub All-imp :
      (P : A → Type κ) (Q : A → Type μ) (f : (a : A) → P a → Q a) (xs : List A)
      → All P xs
      → All Q xs
  All-imp P Q f [] h = tt
  All-imp P Q f (x ∷ xs) h = (f x h.0, All-imp P Q f xs h.1)

-- Where an entry stands in a list, as data.
module _ {ℓ} {A : Type ℓ} where
  pub data In (a : A) : List A → Type ℓ where
    here : {x : A} {xs : List A} → a ≡ x → In a (x ∷ xs)
    there : {x : A} {xs : List A} → In a xs → In a (x ∷ xs)

  pub In-cons : {a x : A} {xs : List A} → In a (x ∷ xs) → (a ≡ x) ⊎ In a xs
  In-cons (here e) = inl e
  In-cons (there i) = inr i

  pub In-All {κ} : (P : A → Type κ) (a : A) (xs : List A) → All P xs → In a xs → P a
  In-All P a [] h i = elim i [ ]
  In-All P a (x ∷ xs) h (here e) = subst P (sym e) h.0
  In-All P a (x ∷ xs) h (there i) = In-All P a xs h.1 i

  pub All-of_In {κ} : (P : A → Type κ) (xs : List A) → ((a : A) → In a xs → P a) → All P xs
  All-of_In P [] f = tt
  All-of_In P (x ∷ xs) f = (f x (here refl), All-of_In P xs (λ a i. f a (there i)))

  pub In-retain : (p : A → Bool) (a : A) (xs : List A) → In a xs → p a ≡ true → In a (retain p xs)
  In-retain p a [] i h = elim i [ ]
  In-retain p a (x ∷ xs) (here e) h = rw (← e) (rw h (here refl))
  In-retain p a (x ∷ xs) (there i) h = elim (Bool-cases (p x)) [
    | inl keep ↦ rw keep (there (In-retain p a xs i h))
    | inr drop ↦ rw drop (In-retain p a xs i h)
  ]

  pub In-of_retain :
      (p : A → Bool) (a : A) (xs : List A) → In a (retain p xs) → In a xs × (p a ≡ true)
  In-of_retain p a [] i = elim i [ ]
  In-of_retain p a (x ∷ xs) i = elim (Bool-cases (p x)) [
    | inl keep ↦ elim (In-cons (rw keep at i)) [
      | inl e ↦ (here e, rw e keep)
      | inr j ↦ let (k, h) = In-of_retain p a xs j in (there k, h)
    ]
    | inr drop ↦ let (j, h) = In-of_retain p a xs (rw drop at i) in (there j, h)
  ]

  pub In-of_find :
      (p : A → Bool) (a : A) (xs : List A) → find p xs ≡ some a → In a xs × (p a ≡ true)
  In-of_find p a [] h = cc
  In-of_find p a (x ∷ xs) h = elim (Bool-cases (p x)) [
    | inl hit ↦ let e : x ≡ a = ground arith in (here (sym e), rw (← e) hit)
    | inr miss ↦ let (i, q) = In-of_find p a xs (rw miss at h) in (there i, q)
  ]

  pub find-none_iff : (p : A → Bool) (xs : List A) → any p xs ≡ false → find p xs ≡ none
  find-none_iff p [] h = refl
  find-none_iff p (x ∷ xs) h = ground (arith, find-none_iff p xs)

  pub any_sound : (p : A → Bool) (xs : List A) → any p xs ≡ true → (a : A) × In a xs × (p a ≡ true)
  any_sound p [] h = cc
  any_sound p (x ∷ xs) h = elim (Bool-cases (p x)) [
    | inl hit ↦ (x, here refl, hit)
    | inr miss ↦ let (a, i, q) = any_sound p xs (rw miss at h) in (a, there i, q)
  ]

  pub any_complete : (p : A → Bool) (a : A) (xs : List A) → In a xs → p a ≡ true → any p xs ≡ true
  any_complete p a [] i h = elim i [ ]
  any_complete p a (x ∷ xs) (here e) h = let q : p x ≡ true = rw (← e) h in rw q
  any_complete p a (x ∷ xs) (there i) h = let q = any_complete p a xs i h in ground arith

  pub any_iff :
      (p : A → Bool) (xs : List A) → (any p xs ≡ true) ↔ ((a : A) × In a xs × (p a ≡ true))
  any_iff p xs = (any_sound p xs, λ (a, i, h). any_complete p a xs i h)

  pub In-of_append : (x : A) (xs ys : List A) → In x (xs ++ ys) → In x xs ⊎ In x ys
  In-of_append x [] ys i = inr i
  In-of_append x (y ∷ xs) ys i = elim (In-cons i) [
    | inl e ↦ inl (here e)
    | inr later ↦ elim (In-of_append x xs ys later) [
      | inl before ↦ inl (there before)
      | inr after ↦ inr after
    ]
  ]
