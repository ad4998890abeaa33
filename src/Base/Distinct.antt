-- ===== src/Base/Distinct.antt =====
-- `d.setdefault(key, x)` for each element of a list in turn, of which the values are read: the first
-- element of a key stays. With equality as the test, it is `set(xs)` in the order of first occurrence.
use mathlib.Core.Path.{◌≡◌, refl}
use mathlib.Core.Logic.{◌⊎◌, inl, inr}
use mathlib.Core.Bool.{Bool, true, false}
use mathlib.Core.List.{List, [], ◌∷◌, ◌++◌}
use native.Mathlib.Omega.{arith}
use yggdrasil_home.Base.Tests.{if◌then◌else◌, Bool-cases}
use yggdrasil_home.Base.Lists.{
  any, All, AllPairs, In, here, there, All-append, In-append, In-append_left, In-append_right,
  not_In-nil,
}

module _ {ℓ} {A : Type ℓ} (same : A → A → Bool) where
  unfoldable pub set_default : List A → A → List A
  unfolding any
  set_default seen x = if any (same x) seen then seen else seen ++ x ∷ []

  unfoldable pub distinct : List A → List A → List A
  unfolding set_default
  distinct seen [] = seen
  distinct seen (x ∷ xs) = distinct (set_default seen x) xs

  abbrev pub Differ : A → A → Type 0
  Differ a b = same a b ≡ false

  -- Nothing is invented.
  pub In_distinct : {a : A} (seen xs : List A) → In a (distinct seen xs) → In a seen ⊎ In a xs
  unfolding distinct
  In_distinct seen [] m = inl m
  In_distinct seen (x ∷ xs) m = elim (In_distinct (set_default seen x) xs m) [
    | inr l ↦ inr (there l)
    | inl l ↦ elim (Bool-cases (any (same x) seen)) [
      | inl k ↦ inl (rw (k, set_default) at l)
      | inr k ↦ elim (In-append seen (x ∷ []) (rw (k, set_default) at l)) [
        | inl s ↦ inl s
        | inr s ↦ inr (last s)
      ]
    ]
  ]
    where
      last : {b : A} → In b (x ∷ []) → In b (x ∷ xs)
      last (here e) = here e
      last (there n) = absurd (not_In-nil n)

  set_default-keeps : {a : A} (seen : List A) (x : A) → In a seen → In a (set_default seen x)
  unfolding set_default
  set_default-keeps seen x m = elim (Bool-cases (any (same x) seen)) [
    | inl k ↦ rw k m
    | inr k ↦ rw k (In-append_left (x ∷ []) m)
  ]

  distinct-keeps : {a : A} (seen xs : List A) → In a seen → In a (distinct seen xs)
  unfolding distinct
  distinct-keeps seen [] m = m
  distinct-keeps seen (x ∷ xs) m =
      distinct-keeps (set_default seen x) xs (set_default-keeps seen x m)

  any-witness :
      (x : A) (seen : List A) → any (same x) seen ≡ true → (y : A) × In y seen × (same x y ≡ true)
  unfolding any
  any-witness x [] h = cc
  any-witness x (y ∷ ys) h = elim (Bool-cases (same x y)) [
    | inl k ↦ (y, here refl, k)
    | inr k ↦ let (z, m, e) = any-witness x ys (ground arith) in (z, there m, e)
  ]

  -- Every element has one with its key in the result.
  pub distinct-represents :
      ((a : A) → same a a ≡ true)
      → {a : A} (seen xs : List A) → In a xs
      → (b : A) × In b (distinct seen xs) × (same a b ≡ true)
  unfolding distinct
  distinct-represents same_refl seen [] m = absurd (not_In-nil m)
  distinct-represents same_refl seen (x ∷ xs) (there m) =
      distinct-represents same_refl (set_default seen x) xs m
  distinct-represents same_refl {a} seen (x ∷ xs) (here e) = elim (Bool-cases (any (same x) seen)) [
    | inl k ↦
        let (b, m, s) = any-witness x seen k in
        (b, distinct-keeps (set_default seen x) xs (set_default-keeps seen x m), rw e s)
    | inr k ↦ (
      x,
      distinct-keeps (set_default seen x) xs
          (rw (set_default, k) (In-append_right seen (here refl))),
      rw e (same_refl x),
    )
  ]

  any-All : (x : A) (seen : List A) → any (same x) seen ≡ false → All (λ y. same x y ≡ false) seen
  unfolding any
  any-All x [] h = tt
  any-All x (y ∷ ys) h = (ground arith, any-All x ys (ground arith))

  module _ (symmetric : (a b : A) → Differ a b → Differ b a) where
    AllPairs-snoc :
        (seen : List A) (x : A)
        → AllPairs Differ seen
        → All (Differ x) seen
        → AllPairs Differ (seen ++ x ∷ [])
    AllPairs-snoc [] x h k = (tt, tt)
    AllPairs-snoc (y ∷ ys) x h k =
        (All-append (Differ y) ys (x ∷ []) h.0 (symmetric x y k.0, tt), AllPairs-snoc ys x h.1 k.1)

    -- No two elements of the result have one key.
    pub distinct-AllPairs :
        (seen xs : List A) → AllPairs Differ seen → AllPairs Differ (distinct seen xs)
    unfolding distinct
    distinct-AllPairs seen [] h = h
    distinct-AllPairs seen (x ∷ xs) h =
        distinct-AllPairs (set_default seen x) xs (elim (Bool-cases (any (same x) seen)) [
          | inl k ↦ rw (set_default, k) h
          | inr k ↦ rw (set_default, k) (AllPairs-snoc seen x h (any-All x seen k))
        ])
