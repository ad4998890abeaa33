-- ===== src/Inventory/Collect/Ends.antt =====
-- The `while` loop of a collection and its fuel.
use yggdrasil_home.Base.{
  ◌≡◌, refl, sym, ◌∙◌, subst, ℕ, zero, suc, ◌+◌, ◌≤◌, ◌<◌, Bool, true, false, Option, some, List,
  [], ◌∷◌, ◌++◌, ◌⊎◌, inl, inr, Bool-cases, true≢false, length, arith,
}
use yggdrasil_home.Base.Result.{Result, ok, err, links, ok_inj}
use yggdrasil_home.Inventory.Filters.{Endpoint}
use yggdrasil_home.Inventory.Specs.{ResourceSpec, nested_specs, registry}
use yggdrasil_home.Inventory.Listings.{Proxy}
use yggdrasil_home.Inventory.Collect.{
  Collected, Pass, Project, Raised, after_pass, collect, collect_flat, collect_nested, collect_spec,
  is_ready, nested_after, run_pass,
}

length-append_one {ℓ} : {A : Type ℓ} (xs : List A) (x : A) → length (xs ++ x ∷ []) ≡ suc (length xs)
length-append_one [] x = refl
length-append_one (y ∷ ys) x = let h = length-append_one ys x in omega (arith, h)

module _ (endpoint : Endpoint) (proxy : Proxy) (project : Project) (strict : Bool) where
  abbrev Run : Type 0
  Run = Pass endpoint proxy project strict

  -- A pass over a number of specifications keeps no more than these and what remained before, and
  -- fewer if it was the one to progress.
  Shrinks : ℕ → Run → Run → Type 0
  Shrinks k p q =
      (length q.remaining ≤ length p.remaining + k)
      × (q.progressed ≡ true
          → (p.progressed ≡ true) ⊎ (length q.remaining < length p.remaining + k))

  run_pass-Shrinks :
      (p : Run) (specs : List ResourceSpec) (q : Run)
      → run_pass endpoint proxy project strict p specs ≡ ok q
      → Shrinks (length specs) p q
  unfolding run_pass Shrinks
  run_pass-Shrinks p [] q h = subst (Shrinks 0 p) (ok_inj h) (omega arith, λ k. inl k)
  run_pass-Shrinks p (spec ∷ specs) q h =
      elim (Bool-cases (is_ready endpoint proxy project strict p.collected.listing.objects spec)) [
        | inl k ↦
            let (c, l, m) =
              links (collect_spec endpoint proxy project strict spec p.collected)
                (λ c. run_pass endpoint proxy project strict (moved c) specs) (rw k at h) in
            let (bound, _) = run_pass-Shrinks (moved c) specs q m in
            (omega (arith, bound), λ _. inr (omega (arith, bound)))
        | inr k ↦
            let e = length-append_one p.remaining spec in
            let (bound, fewer) = run_pass-Shrinks kept specs q (rw k at h) in
            (
              omega (arith, e, bound),
              λ r. elim (fewer r) [ inl i ↦ inl i | inr i ↦ inr (omega (arith, e, i)) ],
            )
      ]
    where
      moved : Collected → Run
      moved c = record { progressed = true; remaining = p.remaining; collected = c }

      kept : Run
      kept = record {
        progressed = p.progressed;
        remaining = p.remaining ++ spec ∷ [];
        collected = p.collected;
      }

  abbrev Returns {ℓ} : {A : Type ℓ} → Option A → Type ℓ
  Returns {A = A} r = (a : A) × (r ≡ some a)

  after_pass-Returns :
      (n : ℕ) (specs : List ResourceSpec) (p : Run) (r : Result Raised Run)
      → p.progressed ≡ false
      → length p.remaining ≡ 0
      → run_pass endpoint proxy project strict p specs ≡ r
      → length specs ≤ suc n
      → ((rest : List ResourceSpec) (c : Collected)
          → length rest ≤ n
          → Returns (collect_nested endpoint proxy project strict n rest c))
      → Returns (
          after_pass endpoint proxy project strict
            (collect_nested endpoint proxy project strict n)
            r)
  unfolding Shrinks
  after_pass-Returns n specs p (err e) none_yet empty h bound ih = (err e, refl)
  after_pass-Returns n specs p (ok q) none_yet empty h bound ih = elim (Bool-cases q.progressed) [
    | inl k ↦
        let (_, fewer) = run_pass-Shrinks p specs q h in
        elim (fewer k) [
          | inl i ↦ absurd (true≢false (sym i ∙ none_yet))
          | inr i ↦
              let (r, m) = ih q.remaining q.collected (omega (arith, empty, bound, i)) in
              (r, rw k m)
        ]
    | inr k ↦ (ok q.collected, rw k refl)
  ]

  collect_nested-Returns :
      (n : ℕ) (specs : List ResourceSpec) (c : Collected)
      → length specs ≤ n
      → Returns (collect_nested endpoint proxy project strict n specs c)
  unfolding collect_nested
  collect_nested-Returns n [] c bound = (ok c, refl)
  collect_nested-Returns zero (spec ∷ specs) c bound = absurd (omega (arith, bound))
  collect_nested-Returns (suc n) (spec ∷ specs) c bound =
      after_pass-Returns n (spec ∷ specs) first
        (run_pass endpoint proxy project strict first (spec ∷ specs)) refl refl refl bound
        (collect_nested-Returns n)
    where
      first : Run
      first = record { progressed = false; remaining = []; collected = c }

  nested_after-Returns :
      (fuel : ℕ) (r : Result Raised Collected)
      → length (nested_specs endpoint (registry proxy.resource_registry)) ≤ fuel
      → Returns
          (nested_after endpoint proxy project strict fuel (registry proxy.resource_registry) r)
  nested_after-Returns fuel (err e) bound = (err e, refl)
  nested_after-Returns fuel (ok c) bound = collect_nested-Returns fuel _ c bound

  -- A collection that may make as many passes as there are nested specifications ends, whatever the
  -- service answers, since each pass but the last lists some of those that are pending.
  pub collect_ends :
      (fuel : ℕ)
      → length (nested_specs endpoint (registry proxy.resource_registry)) ≤ fuel
      → (r : Result Raised Collected) × (collect endpoint proxy project strict fuel ≡ some r)
  unfolding collect
  collect_ends fuel bound =
      nested_after-Returns fuel
        (collect_flat endpoint proxy project strict (registry proxy.resource_registry)) bound
