-- ===== src/Deletion/Plan/Correct.antt =====
-- A plan against the report that it is made of.
use Prim.Native.String.{String}
use yggdrasil_home.Base.{
  ◌≡◌, refl, ap, sym, subst, ◌∙◌, true, some, List, [], ◌∷◌, ◌==◌, ◌⊎◌, inl, inr, arith, In, here,
  not_In-nil, text_le, eq_refl, eq_iff, AllPairs, All-In,
}
use yggdrasil_home.Base.Sorting.{sort, IsSorted, In-sort, In_sort, sort-AllPairs}
use yggdrasil_home.Base.Distinct.{
  distinct, distinct-represents, distinct-AllPairs, In_distinct, Differ,
}
use yggdrasil_home.Base.Json.{Json, object, Fields, end, get_json, to_dict}
use yggdrasil_home.Deletion.Names.{canonical_service, canonical_resource}
use yggdrasil_home.Deletion.Commands.{Resource, Planned, ok, delete_plan_error, command_for}
use yggdrasil_home.Deletion.Plan.{
  Found, Operation, plan, plan_deletions, operation_le, same_key, resource_entries, entries_in,
  scan_services, phase_of, nothing,
}
use yggdrasil_home.Deletion.Plan.Order.{operations-IsSorted, issues-IsSorted}
use yggdrasil_home.Deletion.Plan.Parts.{
  IsFor, plan_deletions-Built, operations_for-IsFor, operations_for_covers, operations_for-AllPairs,
  OnResources,
}
use yggdrasil_home.Deletion.Plan.Entries.{IsListed, scan_services_sound, entry_of}
use yggdrasil_home.Deletion.Plan.Complete.{IsItem, scan_services_complete, append-eq-nil}

-- A plan is in the order of phases, and of keys within a phase; its issues are in text order.
pub plan_deletions-IsSorted :
    (report : Fields) (ops : List Operation) (issues : List String)
    → plan_deletions report ≡ plan ops issues
    → IsSorted operation_le ops × IsSorted text_le issues
plan_deletions-IsSorted report ops issues h =
    let b = plan_deletions-Built report h in
    (rw b.sorted (operations-IsSorted b.operations), rw b.reported (issues-IsSorted _))

-- The keys of two resources differ.
abbrev pub KeysDiffer : Resource → Resource → Type 0
KeysDiffer = Differ same_key

KeysDiffer-sym : (a b : Resource) → KeysDiffer a b → KeysDiffer b a
unfolding same_key
KeysDiffer-sym a b h = ground (
  arith,
  eq_iff a.service b.service,
  eq_iff b.service a.service,
  eq_iff a.resource b.resource,
  eq_iff b.resource a.resource,
  eq_iff a.identifier b.identifier,
  eq_iff b.identifier a.identifier,
)

same_key_refl : (a : Resource) → same_key a a ≡ true
unfolding same_key
same_key_refl a = rw (eq_refl a.service, eq_refl a.resource, eq_refl a.identifier)

-- How `resource_entries` came by its result.
record Scanned (report : Fields) (found : Found) : Type 0 where
  services : Fields
  at_resources : get_json report "resources" ≡ object services
  entries_eq : found.entries ≡ distinct same_key [] (scan_services (to_dict services)).entries
  issues_eq : found.issues ≡ (scan_services (to_dict services)).issues

fields_of : Json → Fields
fields_of (object fs) = fs
fields_of other = end

object_inj : {a b : Fields} → object a ≡ object b → a ≡ b
unfolding fields_of
object_inj h = ap fields_of h

unwrap : Planned Found → Found
unwrap (ok found) = found
unwrap (delete_plan_error message) = nothing

Scanned-at :
    (report : Fields) (value : Json) {found : Found}
    → get_json report "resources" ≡ value
    → entries_in value ≡ ok found
    → Scanned report found
unfolding entries_in unwrap
Scanned-at report (object services) e h = record {
  services = services;
  at_resources = e;
  entries_eq = sym (ap (λ x. (unwrap x).entries) h);
  issues_eq = sym (ap (λ x. (unwrap x).issues) h);
}
Scanned-at report other e h = cc

resource_entries-Scanned :
    (report : Fields) {found : Found} → resource_entries report ≡ ok found → Scanned report found
unfolding resource_entries
resource_entries-Scanned report h = Scanned-at report _ refl h

-- No two operations of a plan delete a resource of one key.
pub plan_deletions-AllPairs :
    (report : Fields) (ops : List Operation) (issues : List String)
    → plan_deletions report ≡ plan ops issues
    → AllPairs (OnResources KeysDiffer) ops
plan_deletions-AllPairs report ops issues h =
    let b = plan_deletions-Built report h in
    let s = resource_entries-Scanned report b.entered in
    rw b.sorted (
      sort-AllPairs operation_le (λ x y. KeysDiffer-sym x.resource y.resource) b.operations
        (operations_for-AllPairs KeysDiffer b.found.entries b.operations b.more b.made
          (rw s.entries_eq (distinct-AllPairs same_key KeysDiffer-sym [] _ tt))))

-- An operation of a plan, with the item of the report that it deletes.
pub record IsPlanned (report : Fields) (op : Operation) : Type 0 where
  pub services : Fields
  pub at_resources : get_json report "resources" ≡ object services
  pub listed : IsListed (to_dict services) op.resource
  pub command : command_for op.resource ≡ ok op.argv
  pub phased : phase_of (op.resource.service, op.resource.resource) ≡ some op.phase

scanned_entry : {r : Resource} {xs : List Resource} → In r [] ⊎ In r xs → In r xs
scanned_entry (inl m) = absurd (not_In-nil m)
scanned_entry (inr m) = m

-- Each operation of a plan, with issues or without, is the deletion command of an object in the
-- report, under a kind that is not skipped, with that kind's phase.
pub plan_deletions-IsPlanned :
    (report : Fields) (ops : List Operation) (issues : List String)
    → plan_deletions report ≡ plan ops issues
    → (op : Operation) → In op ops
    → IsPlanned report op
plan_deletions-IsPlanned report ops issues h op m =
    let b = plan_deletions-Built report h in
    let s = resource_entries-Scanned report b.entered in
    let f =
      All-In (IsFor b.found.entries)
        (operations_for-IsFor b.found.entries b.operations b.more b.made)
        (In_sort operation_le b.operations (rw b.sorted at m)) in
    record {
      services = s.services;
      at_resources = s.at_resources;
      listed =
          scan_services_sound (to_dict s.services)
            (scanned_entry (In_distinct same_key [] _ (rw s.entries_eq at f.listed)));
      command = f.command;
      phased = f.phased;
    }

-- The operation deletes the resource of this key.
abbrev pub Deletes : Operation → Resource → Type 0
Deletes op r =
    (op.resource.service ≡ r.service)
    × (op.resource.resource ≡ r.resource)
    × (op.resource.identifier ≡ r.identifier)

no_issues : (messages : List String) → [] ≡ sort text_le (distinct ◌==◌ [] messages) → messages ≡ []
no_issues [] h = refl
no_issues (x ∷ xs) h =
    let (y, m, e) = distinct-represents ◌==◌ eq_refl [] (x ∷ xs) (here refl) in
    absurd (not_In-nil (rw (← h) at (In-sort text_le (distinct ◌==◌ [] (x ∷ xs)) m)))

same_key-Deletes :
    (op : Operation) (a b : Resource) → op.resource ≡ b → same_key a b ≡ true → Deletes op a
unfolding same_key
same_key-Deletes op a b e h = rw e (
    ground (
      arith,
      eq_iff a.service b.service,
      eq_iff a.resource b.resource,
      eq_iff a.identifier b.identifier,
    ))

-- With no issue, every item of the report under a kind that is not skipped is an object, and the
-- plan has an operation of its key.
pub plan_deletions_complete :
    (report services : Fields) (ops : List Operation) (raw_service raw_resource : String)
    (item : Json)
    → plan_deletions report ≡ plan ops []
    → get_json report "resources" ≡ object services
    → IsItem (to_dict services) raw_service raw_resource item
    → (raw : Fields) × (item ≡ object raw)
      × (op : Operation) × In op ops
      × Deletes op (entry_of (canonical_service raw_service) (canonical_resource raw_resource) raw)
plan_deletions_complete report services ops raw_service raw_resource item h r i =
    let b = plan_deletions-Built report h in
    let s = resource_entries-Scanned report b.entered in
    let same : s.services ≡ services = object_inj (sym s.at_resources ∙ r) in
    let no_issue = sym (s.issues_eq ∙ ap (λ x. (scan_services (to_dict x)).issues) same) in
    let entries =
      s.entries_eq ∙ ap (λ x. distinct same_key [] (scan_services (to_dict x)).entries) same in
    let (p, q) = append-eq-nil b.found.issues b.more (no_issues _ b.reported) in
    let read =
      scan_services_complete (to_dict services) raw_service raw_resource (no_issue ∙ p) i in
    let (e, m, k) = distinct-represents same_key same_key_refl [] _ read.entered in
    let (op, n, f) =
      operations_for_covers b.found.entries b.operations (rw q at b.made)
        (subst (λ l. In e l) (sym entries) m) in
    (
      read.raw,
      read.is_object,
      op,
      subst (λ l. In op l) (sym b.sorted) (In-sort operation_le b.operations n),
      same_key-Deletes op _ e f k,
    )
