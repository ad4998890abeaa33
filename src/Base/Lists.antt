-- ===== src/Base/Lists.antt =====
-- Lists: predicates by recursion, membership that can be matched, filters and tests on elements.
use Prim.Native.Nat.{ℕ, suc}
use mathlib.Core.Path.{◌≡◌, refl, ap}
use mathlib.Core.Logic.{◌⊎◌, inl, inr}
use mathlib.Core.Bool.{Bool, true, false, ◌&&◌, ◌||◌}
use mathlib.Core.Option.{Option, none, some}
use mathlib.Core.List.{List, [], ◌∷◌, ◌++◌}
use yggdrasil_home.Base.Tests.{if◌then◌else◌, Bool-cases}

-- Membership with its position kept.
pub data In {ℓ} {A : Type ℓ} (a : A) : List A → Type ℓ where
  here : {x : A} {xs : List A} → a ≡ x → In a (x ∷ xs)
  there : {x : A} {xs : List A} → In a xs → In a (x ∷ xs)

from_option {ℓ} : {A : Type ℓ} → A → Option A → A
from_option a none = a
from_option a (some b) = b

pub some_inj {ℓ} : {A : Type ℓ} {a b : A} → some a ≡ some b → a ≡ b
unfolding from_option
some_inj {a = a} h = ap (from_option a) h

module _ {ℓ} {A : Type ℓ} where
  abbrev pub length : List A → ℕ
  length [] = 0
  length (x ∷ xs) = suc (length xs)

  abbrev pub All {κ} : (A → Type κ) → List A → Type κ
  All P [] = Unit
  All P (x ∷ xs) = P x × All P xs

  -- The relation holds between each element and every one behind it.
  abbrev pub AllPairs {κ} : (A → A → Type κ) → List A → Type κ
  AllPairs R [] = Unit
  AllPairs R (x ∷ xs) = All (R x) xs × AllPairs R xs

  -- `[x for x in xs if p(x)]`
  unfoldable pub keep : (A → Bool) → List A → List A
  keep p [] = []
  keep p (x ∷ xs) = let rest = keep p xs in if p x then x ∷ rest else rest

  unfoldable pub any : (A → Bool) → List A → Bool
  any p [] = false
  any p (x ∷ xs) = p x || any p xs

  unfoldable pub all : (A → Bool) → List A → Bool
  all p [] = true
  all p (x ∷ xs) = p x && all p xs

  abbrev pub is_empty : List A → Bool
  is_empty [] = true
  is_empty (x ∷ xs) = false

  -- `next((x for x in xs if p(x)), None)`
  unfoldable pub first_where : (A → Bool) → List A → Option A
  first_where p [] = none
  first_where p (x ∷ xs) = let rest = first_where p xs in if p x then some x else rest

  pub All-In {κ} : (P : A → Type κ) {a : A} {xs : List A} → All P xs → In a xs → P a
  All-In P h (here e) = rw e h.0
  All-In P h (there m) = All-In P h.1 m

  pub All-of_In {κ} : (P : A → Type κ) (xs : List A) → ((a : A) → In a xs → P a) → All P xs
  All-of_In P [] h = tt
  All-of_In P (x ∷ xs) h = (h x (here refl), All-of_In P xs (λ a m. h a (there m)))

  pub All-map {κ μ} :
      (P : A → Type κ) (Q : A → Type μ) (xs : List A) → ((a : A) → P a → Q a) → All P xs → All Q xs
  All-map P Q [] f h = tt
  All-map P Q (x ∷ xs) f h = (f x h.0, All-map P Q xs f h.1)

  pub All-append {κ} : (P : A → Type κ) (xs ys : List A) → All P xs → All P ys → All P (xs ++ ys)
  All-append P [] ys h k = k
  All-append P (x ∷ xs) ys h k = (h.0, All-append P xs ys h.1 k)

  pub In-append_left : {a : A} {xs : List A} (ys : List A) → In a xs → In a (xs ++ ys)
  In-append_left ys (here e) = here e
  In-append_left ys (there m) = there (In-append_left ys m)

  pub In-append_right : {a : A} (xs : List A) {ys : List A} → In a ys → In a (xs ++ ys)
  In-append_right [] m = m
  In-append_right (x ∷ xs) m = there (In-append_right xs m)

  pub In-append : {a : A} (xs ys : List A) → In a (xs ++ ys) → In a xs ⊎ In a ys
  In-append [] ys m = inr m
  In-append (x ∷ xs) ys (here e) = inl (here e)
  In-append (x ∷ xs) ys (there m) = elim (In-append xs ys m) [
    | inl l ↦ inl (there l)
    | inr r ↦ inr r
  ]

  pub In_cons : {a x : A} {xs ys : List A} → (In a xs → In a ys) → In a (x ∷ xs) → In a (x ∷ ys)
  In_cons f (here e) = here e
  In_cons f (there m) = there (f m)

  pub not_In-nil : {a : A} → In a [] → ⊥
  not_In-nil m = elim m [ ]

  pub In-keep : {a : A} (p : A → Bool) {xs : List A} → In a xs → p a ≡ true → In a (keep p xs)
  unfolding keep
  In-keep p (here {x = x} e) h = let k : p x ≡ true = rw e at h in rw k (here e)
  In-keep p (there {x = x} m) h = elim (Bool-cases (p x)) [
    | inl k ↦ rw k (there (In-keep p m h))
    | inr k ↦ rw k (In-keep p m h)
  ]

  In_cons_keep :
      {a : A} (p : A → Bool) (x : A) (xs ys : List A)
      → p x ≡ true
      → (In a xs → In a ys × (p a ≡ true))
      → In a (x ∷ xs)
      → In a (x ∷ ys) × (p a ≡ true)
  In_cons_keep p x xs ys k f (here e) = (here e, rw e k)
  In_cons_keep p x xs ys k f (there m) = let (l, h) = f m in (there l, h)

  pub In_keep : {a : A} (p : A → Bool) (xs : List A) → In a (keep p xs) → In a xs × (p a ≡ true)
  unfolding keep
  In_keep p [] m = absurd (not_In-nil m)
  In_keep p (x ∷ xs) m = elim (Bool-cases (p x)) [
    | inl k ↦ In_cons_keep p x (keep p xs) xs k (In_keep p xs) (rw k at m)
    | inr k ↦ let (l, h) = In_keep p xs (rw k at m) in (there l, h)
  ]

  -- A relation between any two elements, with what is known of each of them.
  pub AllPairs-with {κ μ} :
      (R : A → A → Type κ) (P : A → Type μ) (xs : List A)
      → AllPairs R xs
      → All P xs
      → AllPairs (λ a b. R a b × P a × P b) xs
  AllPairs-with R P [] h k = tt
  AllPairs-with R P (x ∷ xs) h k = (with_first x k.0 xs h.0 k.1, AllPairs-with R P xs h.1 k.1)
    where
      with_first :
          (a : A) → P a → (ys : List A) → All (R a) ys → All P ys → All (λ b. R a b × P a × P b) ys
      with_first a p [] l q = tt
      with_first a p (y ∷ ys) l q = ((l.0, p, q.0), with_first a p ys l.1 q.1)
