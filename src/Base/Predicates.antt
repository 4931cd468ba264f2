-- ===== src/Base/Predicates.antt =====
-- Membership and predicates on lists, by recursion, so that the tactics read them.
use Prim.Native.Nat.{ℕ, zero, suc}
use mathlib.Core.Path.{◌≡◌, refl, sym, ap}
use mathlib.Core.Logic.{◌⊎◌, inl, inr}
use mathlib.Core.Bool.{Bool, true, false, ◌||◌}
use mathlib.Core.List.{List, [], ◌∷◌, ◌++◌, map}
use mathlib.Core.Option.{Option, none, some}
use native.Mathlib.Omega.{arith}
use cue_pool.Base.Lists.{get_elem?}
use cue_pool.Base.Tests.{◌==◌, if◌then◌else◌}

abbrev pub All {ℓ κ} : {A : Type ℓ} → (A → Type κ) → List A → Type κ
All P [] = Unit
All P (x ∷ xs) = P x × All P xs

abbrev pub In : {A : Type 0} → A → List A → Type 0
In a [] = ⊥
In a (x ∷ xs) = (a ≡ x) ⊎ In a xs

-- No entry occurs twice.
abbrev pub Distinct : {A : Type 0} → List A → Type 0
Distinct [] = Unit
Distinct (x ∷ xs) = (¬ In x xs) × Distinct xs

-- `xs.contains(&a)`.
abbrev pub contains : ℕ → List ℕ → Bool
contains a [] = false
contains a (x ∷ xs) = a == x || contains a xs

module _ {ℓ} {A : Type ℓ} where
  -- `iter().filter(p)` and `retain(p)`, on a Boolean test.
  abbrev pub filter_by : (A → Bool) → List A → List A
  filter_by p [] = []
  filter_by p (x ∷ xs) = if p x then x ∷ filter_by p xs else filter_by p xs

  -- `iter().find(p)`.
  abbrev pub find_by : (A → Bool) → List A → Option A
  find_by p [] = none
  find_by p (x ∷ xs) = if p x then some x else find_by p xs

  -- `iter().any(p)`.
  abbrev pub any_by : (A → Bool) → List A → Bool
  any_by p [] = false
  any_by p (x ∷ xs) = p x || any_by p xs

  -- `iter().position(p)`.
  abbrev pub position_by : (A → Bool) → List A → Option ℕ
  position_by p [] = none
  position_by p (x ∷ xs) =
      if p x then some 0 else (elim (position_by p xs) [ none ↦ none | some n ↦ some (suc n) ])

pub contains→In : (a : ℕ) (xs : List ℕ) → contains a xs ≡ true → In a xs
contains→In a (x ∷ xs) h = ground (arith, contains→In a xs)
contains→In a [] h = cc

pub In→contains : (a : ℕ) (xs : List ℕ) → In a xs → contains a xs ≡ true
In→contains a (x ∷ xs) h = ground (arith, In→contains a xs)
In→contains a [] h = absurd h

pub not-In→contains : (a : ℕ) (xs : List ℕ) → ¬ In a xs → contains a xs ≡ false
not-In→contains a [] h = refl
not-In→contains a (x ∷ xs) h = ground (arith, not-In→contains a xs)

pub contains→not-In : (a : ℕ) (xs : List ℕ) → contains a xs ≡ false → ¬ In a xs
contains→not-In a xs h m = ground (arith, In→contains a xs m)

module _ {A : Type 0} where
  pub In-append_left : (a : A) (xs ys : List A) → In a xs → In a (xs ++ ys)
  In-append_left a [] ys h = absurd h
  In-append_left a (x ∷ xs) ys (inl e) = inl e
  In-append_left a (x ∷ xs) ys (inr h) = inr (In-append_left a xs ys h)

  pub In-append_right : (a : A) (xs ys : List A) → In a ys → In a (xs ++ ys)
  In-append_right a [] ys h = h
  In-append_right a (x ∷ xs) ys h = inr (In-append_right a xs ys h)

  pub In-append_cases : (a : A) (xs ys : List A) → In a (xs ++ ys) → In a xs ⊎ In a ys
  In-append_cases a [] ys h = inr h
  In-append_cases a (x ∷ xs) ys (inl e) = inl (inl e)
  In-append_cases a (x ∷ xs) ys (inr h) = elim (In-append_cases a xs ys h) [
    | inl l ↦ inl (inr l)
    | inr r ↦ inr r
  ]

  pub In-filter_by :
      (p : A → Bool) (a : A) (xs : List A) → In a (filter_by p xs) → In a xs × (p a ≡ true)
  In-filter_by p a [] h = absurd h
  In-filter_by p a (x ∷ xs) h = ground (arith, In-filter_by p a xs)

  pub filter_by-In :
      (p : A → Bool) (a : A) (xs : List A) → In a xs → p a ≡ true → In a (filter_by p xs)
  filter_by-In p a [] h e = absurd h
  filter_by-In p a (x ∷ xs) h e = ground (arith, filter_by-In p a xs)

  pub In-get_elem? : (a : A) (xs : List A) → In a xs → (i : ℕ) × (get_elem? xs i ≡ some a)
  In-get_elem? a [] h = absurd h
  In-get_elem? a (x ∷ xs) (inl e) = (zero, ap some (sym e))
  In-get_elem? a (x ∷ xs) (inr h) = let (i, e) = In-get_elem? a xs h in (suc i, e)

module _ {A : Type 0} where
  pub get_elem?-In : (xs : List A) (i : ℕ) {a : A} → get_elem? xs i ≡ some a → In a xs
  get_elem?-In [] i e = cc
  get_elem?-In (x ∷ xs) zero e = inl (cc)
  get_elem?-In (x ∷ xs) (suc i) e = inr (get_elem?-In xs i e)

module _ {A B : Type 0} where
  pub In-map : (f : A → B) (a : A) (xs : List A) → In a xs → In (f a) (map f xs)
  In-map f a [] h = absurd h
  In-map f a (x ∷ xs) (inl e) = inl (ap f e)
  In-map f a (x ∷ xs) (inr h) = inr (In-map f a xs h)

  pub map-In : (f : A → B) (b : B) (xs : List A) → In b (map f xs) → (a : A) × In a xs × (b ≡ f a)
  map-In f b [] h = absurd h
  map-In f b (x ∷ xs) (inl e) = (x, inl refl, e)
  map-In f b (x ∷ xs) (inr h) = let (a, m, e) = map-In f b xs h in (a, inr m, e)

pub contains-append :
    (a : ℕ) (xs ys : List ℕ) → contains a (xs ++ ys) ≡ (contains a xs || contains a ys)
contains-append a [] ys = refl
contains-append a (x ∷ xs) ys = ground (arith, contains-append a xs ys)
