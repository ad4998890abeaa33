-- ===== src/Deletion/Plan.antt =====
-- `_resource_entries` and `plan_deletions` of scripts/openstack/delete-project-resources.py. The two
-- lists that the loops append to are joined from what each round appends.
pub mod Order
pub mod Parts
pub mod Entries
pub mod Complete
pub mod Correct
pub mod Phases
pub mod Supported
use Prim.Native.String.{String}
use yggdrasil_home.Base.{
  ℕ, Bool, true, false, not, ◌&&◌, ◌||◌, Option, none, some, List, [], ◌∷◌, ◌++◌, ◌==◌, ◌<>◌, leb,
  if◌then◌else◌, is_blank, any, text_le,
}
use yggdrasil_home.Base.Dict.{Dict}
use yggdrasil_home.Base.Sorting.{sort}
use yggdrasil_home.Base.Distinct.{distinct}
use yggdrasil_home.Order.{lexicographic}
use yggdrasil_home.Base.Json.{Json, array, object, Fields, get_json, repr, to_list, to_dict, truthy}
use yggdrasil_home.Deletion.Tables.{Kind, resource_phases, covered_child_resources}
use yggdrasil_home.Deletion.Names.{canonical_service, canonical_resource, identifier}
use yggdrasil_home.Deletion.Commands.{Resource, Planned, ok, delete_plan_error, Argv, command_for}

pub record Operation : Type 0 where
  pub phase : ℕ
  pub resource : Resource
  pub argv : Argv

-- What a part of the report gives: entries, and issues found in it.
pub record Found : Type 0 where
  pub entries : List Resource
  pub issues : List String

abbrev pub nothing : Found
nothing = record { entries = []; issues = [] }

abbrev pub issue : String → Found
issue message = record { entries = []; issues = message ∷ [] }

abbrev pub and_found : Found → Found → Found
and_found a b = record { entries = a.entries ++ b.entries; issues = a.issues ++ b.issues }

abbrev same_kind : Kind → Kind → Bool
same_kind (s, r) (t, q) = (s == t) && (r == q)

unfoldable pub phase_in : List (Kind × ℕ) → Kind → Option ℕ
phase_in [] kind = none
phase_in ((k, phase) ∷ rest) kind =
    let later = phase_in rest kind in if same_kind k kind then some phase else later

unfoldable pub phase_of : Kind → Option ℕ
unfolding phase_in
phase_of = phase_in resource_phases

unfoldable pub is_covered : Kind → Bool
unfolding any
is_covered kind = any (same_kind kind) covered_child_resources

abbrev slashed : String → String → String
slashed service resource = service <> ("/" <> resource)

-- The body of the loop over `objects`.
unfoldable pub scan_item : String → String → Json → Found
scan_item service resource (object raw) =
    let id = identifier raw service resource in
    if is_blank id
    then issue (slashed service resource <> (": resource has no id or name: " <> repr (object raw)))
    else record {
      entries = record { service = service; resource = resource; identifier = id; raw = raw } ∷ [];
      issues = [];
    }
scan_item service resource _ = issue (slashed service resource <> ": resource is not an object")

unfoldable pub scan_items : String → String → List Json → Found
unfolding scan_item
scan_items service resource [] = nothing
scan_items service resource (item ∷ items) =
    and_found (scan_item service resource item) (scan_items service resource items)

unfoldable pub scan_phased : String → String → List Json → Option ℕ → Found
unfolding scan_items
scan_phased service resource items none =
    issue ("unsupported project resource: " <> slashed service resource)
scan_phased service resource items (some _) = scan_items service resource items

-- The kinds that the loop passes over: the project itself, and what a parent's deletion covers.
unfoldable pub is_skipped : Kind → Bool
unfolding is_covered
is_skipped (service, resource) =
    ((service == "identity") && (resource == "project")) || is_covered (service, resource)

-- The tests on the kind, for a collection that is a list and not empty.
unfoldable pub scan_list : String → String → List Json → Found
unfolding scan_phased phase_of is_skipped
scan_list service resource items =
    let kind : Kind = (service, resource) in
    if is_skipped kind then nothing else scan_phased service resource items (phase_of kind)

-- The body of the loop over one service's collections.
unfoldable pub scan_collection : String → String → Json → Found
unfolding scan_list
scan_collection service resource (array xs) =
    if truthy (array xs) then scan_list service resource (to_list xs) else nothing
scan_collection service resource objects =
    if truthy objects
    then issue (slashed service resource <> ": resource collection is not a list")
    else nothing

unfoldable pub scan_collections : String → Dict Json → Found
unfolding scan_collection
scan_collections service [] = nothing
scan_collections service ((raw_resource, objects) ∷ rest) =
    and_found (scan_collection service (canonical_resource raw_resource) objects)
      (scan_collections service rest)

-- The body of the loop over `resources.items()`.
unfoldable pub scan_service : String → Json → Found
unfolding scan_collections
scan_service raw_service (object collections) =
    scan_collections (canonical_service raw_service) (to_dict collections)
scan_service raw_service _ = issue (raw_service <> ": resource collection is not an object")

unfoldable pub scan_services : Dict Json → Found
unfolding scan_service
scan_services [] = nothing
scan_services ((raw_service, service_resources) ∷ rest) =
    and_found (scan_service raw_service service_resources) (scan_services rest)

unfoldable pub same_key : Resource → Resource → Bool
same_key a b =
    (a.service == b.service) && ((a.resource == b.resource) && (a.identifier == b.identifier))

-- `_resource_entries`, from the value at "resources".
unfoldable pub entries_in : Json → Planned Found
unfolding scan_services distinct same_key
entries_in (object services) =
    let found = scan_services (to_dict services) in
    ok (record { entries = distinct same_key [] found.entries; issues = found.issues })
entries_in _ = delete_plan_error "inventory report has no resources object"

unfoldable pub resource_entries : Fields → Planned Found
unfolding entries_in
resource_entries report = entries_in (get_json report "resources")

unfoldable pub key_le : Resource → Resource → Bool
key_le a b = lexicographic (text_le a.service b.service) (text_le b.service a.service) (
    lexicographic (text_le a.resource b.resource) (text_le b.resource a.resource)
      (text_le a.identifier b.identifier))

-- The order of `(operation.phase, operation.resource.key)`.
unfoldable pub operation_le : Operation → Operation → Bool
operation_le a b =
    lexicographic (leb a.phase b.phase) (leb b.phase a.phase) (key_le a.resource b.resource)

-- What `plan_deletions` returns. `key_error` is the lookup in `RESOURCE_PHASES` that fails.
pub data Plan : Type 0 where
  plan : List Operation → List String → Plan
  key_error : Plan
  refused : String → Plan

abbrev add_operation : Operation → Plan → Plan
add_operation op (plan ops issues) = plan (op ∷ ops) issues
add_operation op other = other

abbrev add_issue : String → Plan → Plan
add_issue message (plan ops issues) = plan ops (message ∷ issues)
add_issue message other = other

-- The body of the loop: what `command_for` and the lookup of the phase give for the resource.
unfoldable pub add_result : Resource → Planned Argv → Option ℕ → Plan → Plan
add_result r (delete_plan_error message) phase rest = add_issue message rest
add_result r (ok argv) none rest = key_error
add_result r (ok argv) (some phase) rest =
    add_operation (record { phase = phase; resource = r; argv = argv }) rest

-- The loop over `resources`.
unfoldable pub operations_for : List Resource → Plan
unfolding phase_of add_result
operations_for [] = plan [] []
operations_for (r ∷ rs) =
    add_result r (command_for r) (phase_of (r.service, r.resource)) (operations_for rs)

unfoldable pub finish_plan : List String → Plan → Plan
unfolding sort distinct operation_le text_le
finish_plan issues (plan ops more) =
    plan (sort operation_le ops) (sort text_le (distinct ◌==◌ [] (issues ++ more)))
finish_plan issues other = other

-- The rest of `plan_deletions`, from what `_resource_entries` returns or raises.
unfoldable pub plan_of : Planned Found → Plan
unfolding operations_for finish_plan
plan_of (delete_plan_error message) = refused message
plan_of (ok found) = finish_plan found.issues (operations_for found.entries)

unfoldable pub plan_deletions : Fields → Plan
unfolding resource_entries plan_of
plan_deletions report = plan_of (resource_entries report)
