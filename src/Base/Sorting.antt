-- ===== src/Base/Sorting.antt =====
-- `sorted` and `list.sort`: a stable sort by a Boolean order, as an insertion sort from the right.
use yggdrasil_home.Base.Tests.{if◌then◌else◌, Bool-cases}
use yggdrasil_home.Base.Lists.{All, In, here, there, All-In, All-of_In, AllPairs, All-map, In_cons}
use mathlib.Core.Path.{◌≡◌}
use mathlib.Core.Logic.{inl, inr}
use mathlib.Core.Bool.{Bool, true, false}
use mathlib.Core.List.Perm
use mathlib.Core.List.{Perm, List, [], ◌∷◌}

module _ {ℓ} {A : Type ℓ} (le : A → A → Bool) where
  insert : A → List A → List A
  insert x [] = x ∷ []
  insert x (y ∷ ys) = let rest = insert x ys in if le x y then x ∷ y ∷ ys else y ∷ rest

  unfoldable pub sort : List A → List A
  unfolding insert
  sort [] = []
  sort (x ∷ xs) = insert x (sort xs)

  -- Every element is at most each one behind it.
  abbrev pub IsSorted : List A → Type ℓ
  IsSorted [] = Unit
  IsSorted (x ∷ xs) = All (λ y. le x y ≡ true) xs × IsSorted xs

  swap_In : {a x y : A} {xs : List A} → In a (x ∷ y ∷ xs) → In a (y ∷ x ∷ xs)
  swap_In (here e) = there (here e)
  swap_In (there (here e)) = here e
  swap_In (there (there m)) = there (there m)

  In-insert : {a : A} (x : A) (xs : List A) → In a (x ∷ xs) → In a (insert x xs)
  unfolding insert
  In-insert x [] m = m
  In-insert x (y ∷ ys) m = elim (Bool-cases (le x y)) [
    | inl k ↦ rw k m
    | inr k ↦ rw k (In_cons (In-insert x ys) (swap_In m))
  ]

  In_insert : {a : A} (x : A) (xs : List A) → In a (insert x xs) → In a (x ∷ xs)
  unfolding insert
  In_insert x [] m = m
  In_insert x (y ∷ ys) m = elim (Bool-cases (le x y)) [
    | inl k ↦ rw k at m
    | inr k ↦ swap_In (In_cons (In_insert x ys) (rw k at m))
  ]

  -- Sorting keeps the members, and adds none.
  pub In-sort : {a : A} (xs : List A) → In a xs → In a (sort xs)
  unfolding sort
  In-sort [] m = m
  In-sort (x ∷ xs) m = In-insert x (sort xs) (In_cons (In-sort xs) m)

  pub In_sort : {a : A} (xs : List A) → In a (sort xs) → In a xs
  unfolding sort
  In_sort [] m = m
  In_sort (x ∷ xs) m = In_cons (In_sort xs) (In_insert x (sort xs) m)

  insert-perm : (x : A) (xs : List A) → Perm (insert x xs) (x ∷ xs)
  unfolding insert
  insert-perm x [] = Perm.refl _
  insert-perm x (y ∷ ys) = elim (Bool-cases (le x y)) [
    | inl k ↦ rw k (Perm.refl _)
    | inr k ↦ rw k (Perm.trans (Perm.cons y (insert-perm x ys)) (Perm.swap x y ys))
  ]

  pub sort-perm : (xs : List A) → Perm (sort xs) xs
  unfolding sort
  sort-perm [] = Perm.refl []
  sort-perm (x ∷ xs) = Perm.trans (insert-perm x (sort xs)) (Perm.cons x (sort-perm xs))

  -- A symmetric relation between any two elements survives the sort.
  module _ {R : A → A → Type ℓ} (symmetric : (a b : A) → R a b → R b a) where
    insert-AllPairs :
        (x : A) (xs : List A) → All (R x) xs → AllPairs R xs → AllPairs R (insert x xs)
    unfolding insert
    insert-AllPairs x [] h k = (tt, tt)
    insert-AllPairs x (y ∷ ys) h k = elim (Bool-cases (le x y)) [
      | inl e ↦ rw e (h, k)
      | inr e ↦ rw e (
        All-of_In (R y) (insert x ys)
            (λ a m. All-In (R y) (symmetric x y h.0, k.0) (In_insert x ys m)),
        insert-AllPairs x ys h.1 k.1,
      )
    ]

    pub sort-AllPairs : (xs : List A) → AllPairs R xs → AllPairs R (sort xs)
    unfolding sort
    sort-AllPairs [] k = tt
    sort-AllPairs (x ∷ xs) k =
        insert-AllPairs x (sort xs)
          (All-of_In (R x) (sort xs) (λ a m. All-In (R x) k.0 (In_sort xs m)))
          (sort-AllPairs xs k.1)

  module _ (total : (a b : A) → le a b ≡ false → le b a ≡ true)
      (trans : (a b c : A) → le a b ≡ true → le b c ≡ true → le a c ≡ true) where
    All-insert :
        (y x : A) (xs : List A)
        → le y x ≡ true
        → All (λ z. le y z ≡ true) xs
        → All (λ z. le y z ≡ true) (insert x xs)
    unfolding insert
    All-insert y x [] h k = (h, tt)
    All-insert y x (z ∷ zs) h k = elim (Bool-cases (le x z)) [
      | inl e ↦ rw e (h, k)
      | inr e ↦ rw e (k.0, All-insert y x zs h k.1)
    ]

    insert-IsSorted : (x : A) (xs : List A) → IsSorted xs → IsSorted (insert x xs)
    unfolding insert
    insert-IsSorted x [] s = (tt, tt)
    insert-IsSorted x (y ∷ ys) s = elim (Bool-cases (le x y)) [
      | inl e ↦ rw e ((e, All-map _ _ ys (λ z h. trans x y z e h) s.0), s)
      | inr e ↦ rw e (All-insert y x ys (total x y e) s.0, insert-IsSorted x ys s.1)
    ]

    -- By a total and transitive order, the result is in order.
    pub sort-IsSorted : (xs : List A) → IsSorted (sort xs)
    unfolding sort
    sort-IsSorted [] = tt
    sort-IsSorted (x ∷ xs) = insert-IsSorted x (sort xs) (sort-IsSorted xs)
