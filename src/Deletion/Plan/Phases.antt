-- ===== src/Deletion/Plan/Phases.antt =====
-- The table of phases against the order of a plan.
use Prim.Native.String.{String}
use yggdrasil_home.Base.{
  ℕ, ◌≤◌, ◌≡◌, refl, sym, Bool, true, false, ◌||◌, some, List, [], ◌∷◌, ◌++◌, inl, inr, arith, here,
  there, eq_iff, All, All-In, All-of_In, ltb, all, Bool-cases, In-append_right,
}
use yggdrasil_home.Base.Sorting.{IsSorted}
use yggdrasil_home.Base.Json.{Fields}
use yggdrasil_home.Deletion.Tables.{Kind, resource_phases}
use yggdrasil_home.Deletion.Plan.{
  Operation, plan, plan_deletions, phase_in, phase_of, same_kind, operation_le,
}
use mathlib.Core.Option.{some-injective}
use yggdrasil_home.Deletion.Plan.Correct.{plan_deletions-IsSorted, plan_deletions-IsPlanned}

same_kind-eq : (s r t q : String) → same_kind (s, r) (t, q) ≡ true → (s ≡ t) × (r ≡ q)
same_kind-eq s r t q h = ground (arith, eq_iff s t, eq_iff r q)

-- What holds of each row of a table holds of the phase that is found in it.
pub phase_in-All {κ} :
    (P : String → String → ℕ → Type κ) (table : List (Kind × ℕ))
    → All (λ ((s, r), n). P s r n) table
    → (service resource : String) (phase : ℕ) → phase_in table (service, resource) ≡ some phase
    → P service resource phase
unfolding phase_in
phase_in-All P [] h service resource phase e = cc
phase_in-All P (((s, r), n) ∷ rest) h service resource phase e =
    elim (Bool-cases (same_kind (s, r) (service, resource))) [
      | inl k ↦
          let (p, q) = same_kind-eq s r service resource k in
          let f : n ≡ phase = some-injective _ _ (rw k at e) in rw (← p, ← q, ← f) h.0
      | inr k ↦ phase_in-All P rest h.1 service resource phase (rw k at e)
    ]

abbrev pub IsTrust : Operation → Type 0
IsTrust op = (op.resource.service ≡ "identity") × (op.resource.resource ≡ "trust")

late_or_trust : Kind × ℕ → Bool
late_or_trust ((s, r), n) = ltb n 200 || same_kind (s, r) ("identity", "trust")

pub all-All {κ} :
    {A : Type κ} (p : A → Bool) (xs : List A) → all p xs ≡ true → All (λ x. p x ≡ true) xs
unfolding all
all-All p [] h = tt
all-All p (x ∷ xs) h = elim (Bool-cases (p x)) [
  | inl e ↦ (e, all-All p xs (rw e at h))
  | inr e ↦ cc (rw e at h)
]

trusts_last :
    All
      (λ ((s, r), n). (ltb n 200 || same_kind (s, r) ("identity", "trust")) ≡ true)
      resource_phases
unfolding late_or_trust all
trusts_last = all-All late_or_trust resource_phases refl

late_row :
    (s r : String) (n : ℕ)
    → (ltb n 200 || same_kind (s, r) ("identity", "trust")) ≡ true
    → 200 ≤ n
    → (s ≡ "identity") × (r ≡ "trust")
late_row s r n t h = same_kind-eq s r "identity" "trust" (by_test (ltb n 200) (ground arith) t)
  where
    by_test :
        (b : Bool)
        → b ≡ false
        → (b || same_kind (s, r) ("identity", "trust")) ≡ true
        → same_kind (s, r) ("identity", "trust") ≡ true
    by_test true e k = cc
    by_test false e k = k

late-IsTrust :
    (service resource : String) (phase : ℕ)
    → phase_of (service, resource) ≡ some phase
    → 200 ≤ phase
    → (service ≡ "identity") × (resource ≡ "trust")
unfolding phase_of
late-IsTrust service resource phase e h =
    late_row service resource phase
      (phase_in-All (λ s r n. (ltb n 200 || same_kind (s, r) ("identity", "trust")) ≡ true)
        resource_phases trusts_last service resource phase e)
      h

trust_phase :
    (service resource : String) (phase : ℕ)
    → (service ≡ "identity") × (resource ≡ "trust")
    → phase_of (service, resource) ≡ some phase
    → phase ≡ 200
unfolding phase_of phase_in
trust_phase service resource phase (p, q) h =
    let h' : phase_of ("identity", "trust") ≡ some phase = rw (p, q) at h in
    sym (some-injective 200 phase h')

IsSorted-append :
    (before after : List Operation) (op : Operation)
    → IsSorted operation_le (before ++ op ∷ after)
    → All (λ x. operation_le op x ≡ true) after
IsSorted-append [] after op s = s.0
IsSorted-append (x ∷ before) after op s = IsSorted-append before after op s.1

operation_le-phase : (a b : Operation) → operation_le a b ≡ true → a.phase ≤ b.phase
unfolding operation_le
operation_le-phase a b h = ground arith

-- Behind a trust a plan has nothing but trusts.
pub trusts_come_last :
    (report : Fields) (issues : List String) (before after : List Operation) (op : Operation)
    → plan_deletions report ≡ plan (before ++ op ∷ after) issues
    → IsTrust op
    → All IsTrust after
trusts_come_last report issues before after op h t =
    let (s, _) = plan_deletions-IsSorted report (before ++ op ∷ after) issues h in
    let planned = plan_deletions-IsPlanned report (before ++ op ∷ after) issues h in
    let at_200 =
      trust_phase op.resource.service op.resource.resource op.phase t
        (planned op (In-append_right before (here refl))).phased in
    All-of_In IsTrust after λ x m.
      late-IsTrust x.resource.service x.resource.resource x.phase
        (planned x (In-append_right before (there m))).phased
        (omega (
          arith,
          operation_le-phase op x
              (All-In (λ y. operation_le op y ≡ true) (IsSorted-append before after op s) m),
        ))
