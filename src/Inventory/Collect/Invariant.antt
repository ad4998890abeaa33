-- ===== src/Inventory/Collect/Invariant.antt =====
-- Properties that every step of a collection keeps.
use yggdrasil_home.Base.{
  some_inj, ◌≡◌, refl, subst, ℕ, zero, suc, Bool, true, false, Option, some, List, [], ◌∷◌, ◌++◌,
  ◌==◌, inl, inr, Bool-cases,
}
use yggdrasil_home.Base.Dict.{Dict}
use yggdrasil_home.Base.Result.{Result, ok, err, links, ok_inj}
use yggdrasil_home.Inventory.Filters.{Endpoint}
use yggdrasil_home.Inventory.Specs.{
  ResourceClass, ResourceSpec, direct_specs, nested_specs, registry,
}
use yggdrasil_home.Inventory.Listings.{Proxy}
use yggdrasil_home.Inventory.Collect.{
  Collected, Pass, Project, Raised, after_pass, collect, collect_direct, collect_flat,
  collect_nested, collect_object_store, collect_spec, is_ready, nested_after, refined, run_pass,
  start, with_listing,
}

module _ {ℓ} (endpoint : Endpoint) (proxy : Proxy) (project : Project) (strict : Bool)
    (Inv : Collected → Type ℓ)
    (spec_keeps : (spec : ResourceSpec) (c d : Collected)
      → collect_spec endpoint proxy project strict spec c ≡ ok d
      → Inv c
      → Inv d) where
  abbrev Run : Type 0
  Run = Pass endpoint proxy project strict

  direct_keeps :
      (specs : List ResourceSpec) (c d : Collected)
      → collect_direct endpoint proxy project strict specs c ≡ ok d
      → Inv c
      → Inv d
  unfolding collect_direct
  direct_keeps [] c d h i = subst Inv (ok_inj h) i
  direct_keeps (spec ∷ specs) c d h i =
      let (e, l, m) =
        links (collect_spec endpoint proxy project strict spec c)
          (collect_direct endpoint proxy project strict specs) h in
      direct_keeps specs e d m (spec_keeps spec c e l i)

  pass_keeps :
      (p : Run) (specs : List ResourceSpec) (q : Run)
      → run_pass endpoint proxy project strict p specs ≡ ok q
      → Inv p.collected
      → Inv q.collected
  unfolding run_pass
  pass_keeps p [] q h i = subst (λ r. Inv r.collected) (ok_inj h) i
  pass_keeps p (spec ∷ specs) q h i =
      elim (Bool-cases (is_ready endpoint proxy project strict p.collected.listing.objects spec)) [
        | inl k ↦
            let (c, l, m) =
              links (collect_spec endpoint proxy project strict spec p.collected)
                (λ c. run_pass endpoint proxy project strict (moved c) specs) (rw k at h) in
            pass_keeps (moved c) specs q m (spec_keeps spec p.collected c l i)
        | inr k ↦ pass_keeps kept specs q (rw k at h) i
      ]
    where
      moved : Collected → Run
      moved c = record { progressed = true; remaining = p.remaining; collected = c }

      kept : Run
      kept = record {
        progressed = p.progressed;
        remaining = p.remaining ++ spec ∷ [];
        collected = p.collected;
      }

  after_pass_keeps :
      (n : ℕ) (specs : List ResourceSpec) (p : Run) (r : Result Raised Run) (d : Collected)
      → run_pass endpoint proxy project strict p specs ≡ r
      → after_pass endpoint proxy project strict (collect_nested endpoint proxy project strict n) r
        ≡ some (ok d)
      → ((rest : List ResourceSpec) (c : Collected)
          → collect_nested endpoint proxy project strict n rest c ≡ some (ok d)
          → Inv c
          → Inv d)
      → Inv p.collected
      → Inv d
  after_pass_keeps n specs p (err e) d h k ih i = cc k
  after_pass_keeps n specs p (ok q) d h k ih i = elim (Bool-cases q.progressed) [
    | inl l ↦ ih q.remaining q.collected (rw l at k) (pass_keeps p specs q h i)
    | inr l ↦
        let m : ◌≡◌ {A = Option (Result Raised Collected)} (some (ok q.collected)) (some (ok d)) =
          rw l at k in
        subst Inv (ok_inj (some_inj m)) (pass_keeps p specs q h i)
  ]

  nested_keeps :
      (n : ℕ) (specs : List ResourceSpec) (c d : Collected)
      → collect_nested endpoint proxy project strict n specs c ≡ some (ok d)
      → Inv c
      → Inv d
  unfolding collect_nested
  nested_keeps n [] c d h i = subst Inv (ok_inj (some_inj h)) i
  nested_keeps zero (spec ∷ specs) c d h i = cc h
  nested_keeps (suc n) (spec ∷ specs) c d h i =
      after_pass_keeps n (spec ∷ specs)
        (record { progressed = false; remaining = []; collected = c }) _ d refl h
        (λ rest e k. nested_keeps n rest e d k) i

  module _
      (refined_keeps : (c : Collected)
        → Inv c
        → Inv (with_listing c (refined endpoint proxy project strict c.listing)))
      (store_keeps : (resources : Dict ResourceClass) (c d : Collected)
        → (endpoint.service_type == "object-store") ≡ true
        → collect_object_store endpoint proxy project strict resources c ≡ ok d
        → Inv c
        → Inv d)
      (starts : Inv (start endpoint proxy project strict)) where
    flat_keeps :
        (resources : Dict ResourceClass) (d : Collected)
        → collect_flat endpoint proxy project strict resources ≡ ok d
        → Inv d
    unfolding collect_flat
    flat_keeps resources d h =
        let (c, l, m) =
          links
            (collect_direct endpoint proxy project strict (direct_specs endpoint resources)
              (start endpoint proxy project strict))
            _ h in
        let i = refined_keeps c (
          direct_keeps (direct_specs endpoint resources) (start endpoint proxy project strict) c l
            starts) in
        elim (Bool-cases (endpoint.service_type == "object-store")) [
          | inl k ↦
              store_keeps resources
                (with_listing c (refined endpoint proxy project strict c.listing)) d k (rw k at m) i
          | inr k ↦
              let n : ◌≡◌ {A = Result Raised Collected}
                  (ok (with_listing c (refined endpoint proxy project strict c.listing))) (ok d) =
                rw k at m in
              subst Inv (ok_inj n) i
        ]

    after_flat_keeps :
        (fuel : ℕ) (resources : Dict ResourceClass) (r : Result Raised Collected) (d : Collected)
        → collect_flat endpoint proxy project strict resources ≡ r
        → nested_after endpoint proxy project strict fuel resources r ≡ some (ok d)
        → Inv d
    after_flat_keeps fuel resources (err e) d h k = cc k
    after_flat_keeps fuel resources (ok c) d h k =
        nested_keeps fuel (nested_specs endpoint resources) c d k (flat_keeps resources c h)

    pub collect_keeps :
        (fuel : ℕ) (d : Collected)
        → collect endpoint proxy project strict fuel ≡ some (ok d)
        → Inv d
    unfolding collect
    collect_keeps fuel d h = after_flat_keeps fuel (registry proxy.resource_registry) _ d refl h
