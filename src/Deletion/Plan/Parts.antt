-- ===== src/Deletion/Plan/Parts.antt =====
-- The parts of a plan: what `operations_for` makes of the entries, and how `plan_deletions` puts a
-- plan together.
use Prim.Native.String.{String}
use yggdrasil_home.Base.{
  ℕ, ◌≡◌, refl, ap, sym, Option, none, some, List, [], ◌∷◌, ◌++◌, ◌==◌, ◌⊎◌, inl, inr, In, here,
  there, not_In-nil, All, AllPairs, All-In, All-map, text_le,
}
use yggdrasil_home.Base.Sorting.{sort}
use yggdrasil_home.Base.Distinct.{distinct}
use yggdrasil_home.Base.Json.{Fields}
use yggdrasil_home.Deletion.Commands.{Resource, Planned, ok, delete_plan_error, Argv, command_for}
use yggdrasil_home.Deletion.Plan.{
  Operation, Plan, plan, key_error, refused, Found, operations_for, phase_of, operation_le,
  resource_entries, plan_deletions, finish_plan, add_operation, add_issue, add_result, plan_of,
}

abbrev pub planned_operations : Plan → List Operation
planned_operations (plan ops issues) = ops
planned_operations key_error = []
planned_operations (refused message) = []

abbrev pub planned_issues : Plan → List String
planned_issues (plan ops issues) = issues
planned_issues key_error = []
planned_issues (refused message) = []

-- An operation carries the command and the phase of its resource, which is one of the entries.
pub record IsFor (entries : List Resource) (op : Operation) : Type 0 where
  pub listed : In op.resource entries
  pub command : command_for op.resource ≡ ok op.argv
  pub phased : phase_of (op.resource.service, op.resource.resource) ≡ some op.phase

-- One round of the loop: the entry becomes an operation, or an issue.
pub data Round (r : Resource) (rs : List Resource) (ops : List Operation) (issues : List String)
    : Type 0 where
  planned :
      (argv : Argv) (phase : ℕ) (ops' : List Operation)
      → operations_for rs ≡ plan ops' issues
      → command_for r ≡ ok argv
      → phase_of (r.service, r.resource) ≡ some phase
      → ops ≡ record { phase = phase; resource = r; argv = argv } ∷ ops'
      → Round r rs ops issues
  failed :
      (message : String) (issues' : List String)
      → operations_for rs ≡ plan ops issues'
      → command_for r ≡ delete_plan_error message
      → issues ≡ message ∷ issues'
      → Round r rs ops issues

Planned-cases {ℓ} :
    {A : Type ℓ} (p : Planned A)
    → ((a : A) × (p ≡ ok a)) ⊎ ((message : String) × (p ≡ delete_plan_error message))
Planned-cases (ok a) = inl (a, refl)
Planned-cases (delete_plan_error message) = inr (message, refl)

add_operation_cases :
    (op : Operation) (p : Plan) {ops : List Operation} {issues : List String}
    → add_operation op p ≡ plan ops issues
    → (ops' : List Operation) × (p ≡ plan ops' issues) × (ops ≡ op ∷ ops')
add_operation_cases op (plan ops' issues') h =
    (ops', ap (plan ops') (ap planned_issues h), sym (ap planned_operations h))
add_operation_cases op key_error h = cc
add_operation_cases op (refused message) h = cc

add_issue_cases :
    (message : String) (p : Plan) {ops : List Operation} {issues : List String}
    → add_issue message p ≡ plan ops issues
    → (issues' : List String) × (p ≡ plan ops issues') × (issues ≡ message ∷ issues')
add_issue_cases message (plan ops' issues') h =
    (issues', ap (λ o. plan o issues') (ap planned_operations h), sym (ap planned_issues h))
add_issue_cases message key_error h = cc
add_issue_cases message (refused _) h = cc

add_result_cases :
    (r : Resource) (rs : List Resource) (command : Planned Argv) (phase : Option ℕ)
    {ops : List Operation} {issues : List String}
    → command_for r ≡ command
    → phase_of (r.service, r.resource) ≡ phase
    → add_result r command phase (operations_for rs) ≡ plan ops issues
    → Round r rs ops issues
unfolding add_result
add_result_cases r rs (delete_plan_error message) phase e f h =
    let (issues', p, q) = add_issue_cases message (operations_for rs) h in
    failed message issues' p e q
add_result_cases r rs (ok argv) none e f h = cc
add_result_cases r rs (ok argv) (some phase) e f h =
    let (ops', p, q) = add_operation_cases _ (operations_for rs) h in
    planned argv phase ops' p e f q

pub operations_for_cases :
    (r : Resource) (rs : List Resource) {ops : List Operation} {issues : List String}
    → operations_for (r ∷ rs) ≡ plan ops issues
    → Round r rs ops issues
unfolding operations_for
operations_for_cases r rs h = add_result_cases r rs _ _ refl refl h

pub operations_for-nil :
    {ops : List Operation} {issues : List String}
    → operations_for [] ≡ plan ops issues
    → (ops ≡ []) × (issues ≡ [])
unfolding operations_for
operations_for-nil h = (sym (ap planned_operations h), sym (ap planned_issues h))

IsFor-later : {r : Resource} {rs : List Resource} {op : Operation} → IsFor rs op → IsFor (r ∷ rs) op
IsFor-later f = record { listed = there f.listed; command = f.command; phased = f.phased }

-- Each operation is that of an entry.
pub operations_for-IsFor :
    (rs : List Resource) (ops : List Operation) (issues : List String)
    → operations_for rs ≡ plan ops issues
    → All (IsFor rs) ops
operations_for-IsFor [] ops issues h = rw (operations_for-nil h).0 tt
operations_for-IsFor (r ∷ rs) ops issues h = elim (operations_for_cases r rs h) [
  | planned argv phase ops' p e f q ↦ rw q (
    record { listed = here refl; command = e; phased = f },
    All-map (IsFor rs) (IsFor (r ∷ rs)) ops' (λ op. IsFor-later)
        (operations_for-IsFor rs ops' issues p),
  )
  | failed message issues' p e q ↦
      All-map (IsFor rs) (IsFor (r ∷ rs)) ops (λ op. IsFor-later)
        (operations_for-IsFor rs ops issues' p)
]

-- With no issue, each entry has its operation.
pub operations_for_covers :
    (rs : List Resource) (ops : List Operation)
    → operations_for rs ≡ plan ops []
    → {r : Resource} → In r rs
    → (op : Operation) × In op ops × (op.resource ≡ r)
operations_for_covers [] ops h m = absurd (not_In-nil m)
operations_for_covers (r ∷ rs) ops h m = elim (operations_for_cases r rs h) [
  | failed message issues' p e q ↦ cc
  | planned argv phase ops' p e f q ↦
      rw q (first_or_later m argv phase ops' (operations_for_covers rs ops' p))
]
  where
    first_or_later :
        {a : Resource}
        → In a (r ∷ rs)
        → (argv : Argv) (phase : ℕ) (ops' : List Operation)
        → (In a rs → (op : Operation) × In op ops' × (op.resource ≡ a))
        → (op : Operation) × In op (record { phase = phase; resource = r; argv = argv } ∷ ops')
          × (op.resource ≡ a)
    first_or_later (here e) argv phase ops' f = (_, here refl, sym e)
    first_or_later (there l) argv phase ops' f = let (op, k, e) = f l in (op, there k, e)

abbrev pub OnResources {ℓ} : (Resource → Resource → Type ℓ) → Operation → Operation → Type ℓ
OnResources R a b = R a.resource b.resource

-- What holds between the entries holds between the operations.
pub operations_for-AllPairs {ℓ} :
    (R : Resource → Resource → Type ℓ) (rs : List Resource) (ops : List Operation)
    (issues : List String)
    → operations_for rs ≡ plan ops issues
    → AllPairs R rs
    → AllPairs (OnResources R) ops
operations_for-AllPairs R [] ops issues h k = rw (operations_for-nil h).0 tt
operations_for-AllPairs R (r ∷ rs) ops issues h k = elim (operations_for_cases r rs h) [
  | failed message issues' p e q ↦ operations_for-AllPairs R rs ops issues' p k.1
  | planned argv phase ops' p e f q ↦ rw q (
    All-map (IsFor rs) (λ op. R r op.resource) ops' (λ op g. All-In (R r) k.0 g.listed)
        (operations_for-IsFor rs ops' issues p),
    operations_for-AllPairs R rs ops' issues p k.1,
  )
]

-- How `plan_deletions` came by a plan.
pub record Built (report : Fields) (ops : List Operation) (issues : List String) : Type 0 where
  pub found : Found
  pub operations : List Operation
  pub more : List String
  pub entered : resource_entries report ≡ ok found
  pub made : operations_for found.entries ≡ plan operations more
  pub sorted : ops ≡ sort operation_le operations
  pub reported : issues ≡ sort text_le (distinct ◌==◌ [] (found.issues ++ more))

Built-from :
    (report : Fields) (found : Found) (made : Plan) {ops : List Operation} {issues : List String}
    → resource_entries report ≡ ok found
    → operations_for found.entries ≡ made
    → finish_plan found.issues made ≡ plan ops issues
    → Built report ops issues
unfolding finish_plan
Built-from report found (plan ops' more) e f h = record {
  found = found;
  operations = ops';
  more = more;
  entered = e;
  made = f;
  sorted = sym (ap planned_operations h);
  reported = sym (ap planned_issues h);
}
Built-from report found key_error e f h = cc
Built-from report found (refused message) e f h = cc

Built-by :
    (report : Fields) (entries : Planned Found) {ops : List Operation} {issues : List String}
    → resource_entries report ≡ entries
    → plan_of entries ≡ plan ops issues
    → Built report ops issues
unfolding plan_of
Built-by report (delete_plan_error message) e h = cc
Built-by report (ok found) e h = Built-from report found _ e refl h

pub plan_deletions-Built :
    (report : Fields) {ops : List Operation} {issues : List String}
    → plan_deletions report ≡ plan ops issues
    → Built report ops issues
unfolding plan_deletions
plan_deletions-Built report h = Built-by report _ refl h
