-- ===== src/Inventory/Collect/Same/Passes.antt =====
-- The passes of the `while` loop, strict and best-effort.
use yggdrasil_home.Base.{
  ◌≡◌, refl, ap, ℕ, zero, suc, Bool, true, false, some, List, [], ◌∷◌, ◌++◌, inl, inr, Bool-cases,
}
use yggdrasil_home.Base.Result.{Result, ok, err, links, ok_inj}
use yggdrasil_home.Inventory.Filters.{Endpoint}
use yggdrasil_home.Inventory.Specs.{ResourceSpec}
use yggdrasil_home.Inventory.Listings.{Proxy}
use yggdrasil_home.Inventory.Collect.{
  Collected, Pass, Project, Raised, after_pass, collect_nested, collect_spec, is_ready, run_pass,
}
use yggdrasil_home.Inventory.Collect.Same.{spec_same}

module _ (endpoint : Endpoint) (proxy : Proxy) (project : Project) where
  best : Pass endpoint proxy project true → Pass endpoint proxy project false
  best p = record { progressed = p.progressed; remaining = p.remaining; collected = p.collected }

  moved : {b : Bool} → Pass endpoint proxy project b → Collected → Pass endpoint proxy project b
  moved p c = record { progressed = true; remaining = p.remaining; collected = c }

  kept : {b : Bool} → Pass endpoint proxy project b → ResourceSpec → Pass endpoint proxy project b
  kept p spec = record {
    progressed = p.progressed;
    remaining = p.remaining ++ spec ∷ [];
    collected = p.collected;
  }

  pass_same :
      (p q : Pass endpoint proxy project true) (specs : List ResourceSpec)
      → run_pass endpoint proxy project true p specs ≡ ok q
      → run_pass endpoint proxy project false (best p) specs ≡ ok (best q)
  unfolding run_pass is_ready moved kept best
  pass_same p q [] h =
      let e : ◌≡◌ {A = Result Raised (Pass endpoint proxy project true)} (ok p) (ok q) = h in
      ap (λ x. ok (best x)) (ok_inj e)
  pass_same p q (spec ∷ specs) h =
      elim (Bool-cases (is_ready endpoint proxy project true p.collected.listing.objects spec)) [
        | inl k ↦
            let (c, l, m) =
              links (collect_spec endpoint proxy project true spec p.collected)
                (λ c. run_pass endpoint proxy project true (moved p c) specs) (rw k at h) in
            rw (k, spec_same endpoint proxy project spec p.collected c l)
              (pass_same (moved p c) q specs m)
        | inr k ↦ rw k (pass_same (kept p spec) q specs (rw k at h))
      ]

  after_pass_same :
      (n : ℕ) (d : Collected) (r : Result Raised (Pass endpoint proxy project true))
      (s : Result Raised (Pass endpoint proxy project false))
      → ((p : Pass endpoint proxy project true)
          → ◌≡◌ {A = Result Raised (Pass endpoint proxy project true)} r (ok p)
          → ◌≡◌ {A = Result Raised (Pass endpoint proxy project false)} s (ok (best p)))
      → ((specs : List ResourceSpec) (c : Collected)
          → collect_nested endpoint proxy project true n specs c ≡ some (ok d)
          → collect_nested endpoint proxy project false n specs c ≡ some (ok d))
      → after_pass endpoint proxy project true (collect_nested endpoint proxy project true n) r
        ≡ some (ok d)
      → after_pass endpoint proxy project false (collect_nested endpoint proxy project false n) s
        ≡ some (ok d)
  unfolding best
  after_pass_same n d (err e) s f ih h = cc h
  after_pass_same n d (ok p) s f ih h = rw (f p refl) (elim (Bool-cases p.progressed) [
    | inl k ↦ rw k (ih p.remaining p.collected (rw k at h))
    | inr k ↦ rw k (rw k at h)
  ])

  pub nested_same :
      (n : ℕ) (specs : List ResourceSpec) (c d : Collected)
      → collect_nested endpoint proxy project true n specs c ≡ some (ok d)
      → collect_nested endpoint proxy project false n specs c ≡ some (ok d)
  unfolding collect_nested best
  nested_same n [] c d h = h
  nested_same zero (spec ∷ specs) c d h = cc h
  nested_same (suc n) (spec ∷ specs) c d h =
      after_pass_same n d _ _
        (λ p l.
          pass_same (record { progressed = false; remaining = []; collected = c }) p (spec ∷ specs)
            l)
        (λ more e k. nested_same n more e d k) h
