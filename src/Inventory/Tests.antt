-- ===== src/Inventory/Tests.antt =====
-- The inventory's tests on single values, and each theorem applied to one.
use yggdrasil_home.Inventory.Specs.{nested_specs, registry}
use yggdrasil_home.Base.Dict
use yggdrasil_home.Base.Dict.{Dict}
use yggdrasil_home.Inventory.Report.{Collection, Report, client_issue, inventory, problem_issue}
use yggdrasil_home.Inventory.Report.Complete.{IsReported, inventory_complete}
use yggdrasil_home.Inventory.Records.{Failure, unsupported_client_error}
use yggdrasil_home.Inventory.Errors.{Problem}
use yggdrasil_home.Inventory.Ownership.{belongs_to_project}
use yggdrasil_home.Inventory.Related.{Listing, exclude_default_security_group, put_objects}
use yggdrasil_home.Inventory.Related.Excluded.{IsMirrored, put_objects-IsMirrored}
use yggdrasil_home.Inventory.Related.Kept.{ShowsOthers, exclude_default_security_group-ShowsOthers}
use yggdrasil_home.Inventory.Selection.{select_endpoints}
use yggdrasil_home.Inventory.Selection.Chosen.{IsSelection, select_endpoints-IsSelection}
use yggdrasil_home.Inventory.Collect.Ends.{collect_ends}
use yggdrasil_home.Inventory.Collect.Strict.{IsCleanRun, strict-IsClean}
use yggdrasil_home.Inventory.Collect.Lenient.{lenient_returns}
use yggdrasil_home.Inventory.Collect.Owned.{collect-Owned}
use yggdrasil_home.Inventory.Collect.{Collected, Raised, collect}
use yggdrasil_home.Inventory.Samples.{compute, endpoint_at, project_one, resource_at, returned}
use yggdrasil_home.Base.{
  if◌then◌else◌, ◌⊎◌, ◌≤◌, ◌==◌, arith, String, In, here, length, Bool, Option, List, [], ◌∷◌, map,
  ◌≡◌, refl, inl, true, false, not, some, lower, strip,
}
use yggdrasil_home.Base.Json.{Json, object, string, field, end}
use yggdrasil_home.Base.Result.{Result, ok, err}
use yggdrasil_home.Deletion.Plan.{phase_of}
use yggdrasil_home.Inventory.Filters.{
  Endpoint, is_ignored_endpoint, non_deletable_resource, boolean, normalize_interface,
}
use yggdrasil_home.Inventory.Filters.Deletable.{phased_shown}

filters : (boolean (string " No ") ≡ false) × (normalize_interface (string "publicURL") ≡ "public")
unfolding boolean normalize_interface lower strip
filters = (refl, refl)

stack_phase : phase_of ("orchestration", "stack") ≡ some 40
unfolding phase_of
stack_phase = refl

phased_shown_example : not (non_deletable_resource "orchestration" "stack") ≡ true
phased_shown_example = phased_shown "orchestration" "stack" 40 stack_phase

one_nested :
    length
      (nested_specs (endpoint_at "compute" "public") (registry (compute true).resource_registry))
    ≡ 1
unfolding nested_specs registry
one_nested = refl

abbrev named_group : String → String → Json
named_group id name = object (field "id" (string id) (field "name" (string name) end))

abbrev rule_of : String → Json
rule_of id = object (field "security_group_id" (string id) end)

unfoldable run : (strict refuses : Bool) → Option (Result Raised Collected)
unfolding collect
run strict refuses = collect (endpoint_at "compute" "public") (compute refuses) project_one strict 1

best_effort : map (λ p. p.resource) (returned (run false true)).errors ≡ "keypair" ∷ []
unfolding run
best_effort = refl

enough :
    length
      (nested_specs (endpoint_at "compute" "public") (registry (compute true).resource_registry))
    ≤ 1
enough = omega (arith, one_nested)

collect_ends_example :
    (r : Result Raised Collected) × (collect
        (endpoint_at "compute" "public")
        (compute true)
        project_one
        true
        1
      ≡ some r)
collect_ends_example =
    collect_ends (endpoint_at "compute" "public") (compute true) project_one true 1 enough

lenient_returns_example :
    (c : Collected) × (collect (endpoint_at "compute" "public") (compute true) project_one false 1
      ≡ some (ok c))
lenient_returns_example =
    lenient_returns (endpoint_at "compute" "public") (compute true) project_one 1 enough

clean_run :
    collect (endpoint_at "compute" "public") (compute false) project_one true 1
    ≡ some (ok (returned (run true false)))
unfolding run
clean_run = refl

strict-IsClean_example :
    IsCleanRun
      (endpoint_at "compute" "public")
      (compute false)
      project_one
      1
      (returned (run true false))
strict-IsClean_example =
    strict-IsClean (endpoint_at "compute" "public") (compute false) project_one 1
      (returned (run true false)) clean_run

other_service : ("compute" == "object-store") ≡ false
other_service = refl

record_fits : belongs_to_project "p1" project_one.raw ≡ true
unfolding belongs_to_project
record_fits = refl

interface_listed :
    In
      (resource_at "a" "p1")
      (Dict.get_or (returned (run true false)).listing.result "server_interface" [])
    ⊎ In
        (resource_at "a" "p1")
        (Dict.get_or (returned (run true false)).listing.objects "server_interface" [])
unfolding run Dict.get_or
interface_listed = inl (here refl)

collect-Owned_example : belongs_to_project "p1" (resource_at "a" "p1") ≡ true
collect-Owned_example =
    collect-Owned (endpoint_at "compute" "public") (compute false) project_one true 1
      (returned (run true false)) other_service record_fits clean_run "server_interface"
      (resource_at "a" "p1") interface_listed

abbrev groups_listed : Listing
groups_listed =
    put_objects
      (put_objects (record { objects = []; result = [] }) "security_group"
        (named_group "g1" "Default" ∷ named_group "g2" "web" ∷ []))
      "security_group_rule" (rule_of "g1" ∷ rule_of "g2" ∷ [])

one_rule :
    Dict.get_or (exclude_default_security_group groups_listed).result "security_group_rule" []
    ≡ rule_of "g2" ∷ []
unfolding exclude_default_security_group Dict.get_or
one_rule = refl

nothing-IsMirrored : IsMirrored (record { objects = []; result = [] })
unfolding Dict.get_or
nothing-IsMirrored name = refl

groups-IsMirrored : IsMirrored groups_listed
groups-IsMirrored =
    put_objects-IsMirrored _ "security_group_rule" (rule_of "g1" ∷ rule_of "g2" ∷ []) (
      put_objects-IsMirrored _ "security_group"
        (named_group "g1" "Default" ∷ named_group "g2" "web" ∷ []) nothing-IsMirrored)

exclude_default_security_group_example :
    ShowsOthers "security_group" "id" groups_listed (exclude_default_security_group groups_listed)
    × ShowsOthers "security_group_rule" "security_group_id" groups_listed
        (exclude_default_security_group groups_listed)
exclude_default_security_group_example =
    exclude_default_security_group-ShowsOthers groups_listed groups-IsMirrored

abbrev offered : List Endpoint
offered =
    endpoint_at "volumev2" "public"
    ∷ endpoint_at "compute" "internal"
    ∷ endpoint_at "compute" "public"
    ∷ []

abbrev chosen : List Endpoint
chosen = endpoint_at "compute" "public" ∷ endpoint_at "volumev2" "public" ∷ []

selected :
    ◌≡◌ {A = Result Failure (List Endpoint)} (select_endpoints offered "publicURL" "") (ok chosen)
unfolding select_endpoints
selected = refl

select_endpoints-IsSelection_example :
    IsSelection (normalize_interface (string "publicURL")) "" offered chosen
select_endpoints-IsSelection_example =
    select_endpoints-IsSelection offered chosen "publicURL" "" selected

abbrev provider_of : Bool → Endpoint → Result Failure String
provider_of keeps endpoint =
    if endpoint.service_type == "compute"
    then ok "nova"
    else err (unsupported_client_error "no client")

abbrev denied : Problem
denied = record { resource = "keypair"; category = "permission"; error = "denied" }

abbrev run_of : String → Collection
run_of name = (ok (("server", resource_at "a" "p1" ∷ []) ∷ []), denied ∷ [])

abbrev services : List Endpoint
services = endpoint_at "compute" "public" ∷ endpoint_at "dns" "public" ∷ []

abbrev made_report : Report
made_report = record {
  endpoints = services;
  resources = ("compute", ("server", resource_at "a" "p1" ∷ []) ∷ []) ∷ [];
  errors =
      client_issue (endpoint_at "dns" "public") (unsupported_client_error "no client")
      ∷ problem_issue (endpoint_at "compute" "public") denied
      ∷ [];
}

made_run :
    ◌≡◌ {A = Result Failure Report} (inventory provider_of run_of false services) (ok made_report)
unfolding inventory
made_run = refl

not_ignored : is_ignored_endpoint (endpoint_at "compute" "public") ≡ false
unfolding is_ignored_endpoint
not_ignored = refl

inventory_complete_example :
    IsReported provider_of run_of services made_report (endpoint_at "compute" "public")
inventory_complete_example =
    inventory_complete provider_of run_of false services made_report made_run
      (endpoint_at "compute" "public") (here refl) not_ignored
