-- ===== src/Deletion/Tests.antt =====
-- The deletion planner on small reports, and each theorem on plans applied to one.
mod Runs
mod Execution
use yggdrasil_home.Base.{
  ℕ, ◌≡◌, refl, Bool, true, false, some, none, List, [], ◌∷◌, ◌++◌, map, String, In, here, there,
  All, AllPairs, strip_by, lower, strip, text_le, ◌⊎◌, inl, inr,
}
use yggdrasil_home.Base.Sorting.{IsSorted}
use yggdrasil_home.Base.Dict
use yggdrasil_home.Base.Int.{pos}
use yggdrasil_home.Base.Json.{
  get_json, truthy, str, or_else, Json, string, object, array, Fields, end, field, to_dict, to_list,
  nil, cons,
}
use yggdrasil_home.Samples.Reports.{report, services, broken_report, item, named, recordset}
use yggdrasil_home.Deletion.Names.{
  normalize_name, identifier, scalar_text, canonical_service, canonical_resource,
}
use yggdrasil_home.Deletion.Commands.{recordset_operation, Resource, ok, command_for}
use yggdrasil_home.Deletion.Plan.{
  Plan, Operation, plan, plan_deletions, key_le, operation_le, phase_of,
}
use yggdrasil_home.Deletion.Plan.Parts.{OnResources}
use yggdrasil_home.Deletion.Plan.Entries.{entry_of}
use yggdrasil_home.Deletion.Plan.Complete.{IsItem}
use yggdrasil_home.Deletion.Plan.Correct.{
  plan_deletions-IsSorted, plan_deletions-AllPairs, plan_deletions-IsPlanned,
  plan_deletions_complete, IsPlanned, KeysDiffer, Deletes,
}
use yggdrasil_home.Deletion.Plan.Phases.{trusts_come_last, IsTrust}
use yggdrasil_home.Deletion.Plan.Supported.{phased-IsSupported, IsSupported}
use yggdrasil_home.Deletion.World.{
  World, History, Event, Completed, Started, completed, returned, contents, done, command,
}
use yggdrasil_home.Deletion.World.Effects.{effects_in}
use yggdrasil_home.Deletion.Main.{Args, acquire_report, main, inventory_argv}
use yggdrasil_home.Deletion.Main.Safety.{
  main_dry, main_refuses, IsUnsafe, has_issues, inventory_effects,
}

-- What a run of the planner computes with.
unfoldable pub planner : Unit {0}
unfolding plan_deletions canonical_service canonical_resource get_json truthy Dict.get_or
    normalize_name strip_by lower strip identifier scalar_text str command_for recordset_operation
    or_else key_le
planner = tt

canonical-names :
    (canonical_service " Load Balancer " ≡ "load-balancer")
    × (canonical_resource "Volumes" ≡ "volume")
unfolding planner
canonical-names = (refl, refl)

abbrev id_of : String → Fields
id_of id = field "id" (string id) end

abbrev operation : ℕ → String → String → String → Fields → List String → Operation
operation phase service kind id raw argv = record {
  phase = phase;
  resource = record { service = service; resource = kind; identifier = id; raw = raw };
  argv = argv;
}

abbrev recordset_r1 : Operation
recordset_r1 =
    operation 36 "dns" "recordset" "r1"
      (field "id" (string "r1") (field "zone_id" (string "z1") end))
      ("recordset" ∷ "delete" ∷ "z1" ∷ "r1" ∷ [])

abbrev server : String → Operation
server id = operation 80 "compute" "server" id (id_of id) ("server" ∷ "delete" ∷ "--wait" ∷ id ∷ [])

abbrev network_n1 : Operation
network_n1 =
    operation 140 "network" "network" "n1"
      (field "id" (string "n1") (field "name" (string "lan") end))
      ("network" ∷ "delete" ∷ "n1" ∷ [])

abbrev trust_t1 : Operation
trust_t1 = operation 200 "identity" "trust" "t1" (id_of "t1") ("trust" ∷ "delete" ∷ "t1" ∷ [])

abbrev operations : List Operation
operations = recordset_r1 ∷ server "s1" ∷ server "s2" ∷ network_n1 ∷ trust_t1 ∷ []

report_plan : plan_deletions report ≡ plan operations []
unfolding planner
report_plan = refl

pub broken_plan :
    plan_deletions broken_report
    ≡ plan [] ("dns recordset is missing its zone ID: {'id': 'r1'}" ∷ [])
unfolding planner
broken_plan = refl

plan_deletions-IsSorted_example : IsSorted operation_le operations × IsSorted text_le []
plan_deletions-IsSorted_example = plan_deletions-IsSorted report operations [] report_plan

plan_deletions-AllPairs_example : AllPairs (OnResources KeysDiffer) operations
plan_deletions-AllPairs_example = plan_deletions-AllPairs report operations [] report_plan

plan_deletions-IsPlanned_example : IsPlanned report (server "s1")
plan_deletions-IsPlanned_example =
    plan_deletions-IsPlanned report operations [] report_plan (server "s1") (there (here refl))

servers : Fields
servers = field "servers" (array (cons (item "s2") (cons (item "s1") nil))) end

server_item : IsItem (to_dict services) "Compute" "servers" (item "s1")
unfolding planner
server_item = record {
  collections = field "servers" (array (cons (item "s2") (cons (item "s1") nil))) end;
  items = cons (item "s2") (cons (item "s1") nil);
  service_at = there (here refl);
  resource_at = here refl;
  item_at = there (here refl);
  not_skipped = refl;
}

resources_at : get_json report "resources" ≡ object services
unfolding planner
resources_at = refl

plan_deletions_complete_example :
    (raw : Fields) × (item "s1" ≡ object raw)
    × (op : Operation) × In op operations
    × Deletes op (entry_of (canonical_service "Compute") (canonical_resource "servers") raw)
plan_deletions_complete_example =
    plan_deletions_complete report services operations "Compute" "servers" (item "s1") report_plan
      resources_at server_item

trusts_come_last_example : All IsTrust []
trusts_come_last_example =
    trusts_come_last report [] (recordset_r1 ∷ server "s1" ∷ server "s2" ∷ network_n1 ∷ []) []
      trust_t1 report_plan (refl, refl)

server_phase : phase_of ("compute", "server") ≡ some 80
unfolding planner
server_phase = refl

phased-IsSupported_example : IsSupported (server "s1").resource
phased-IsSupported_example = phased-IsSupported (server "s1").resource 80 server_phase

server_command :
    command_for (server "s1").resource ≡ ok ("server" ∷ "delete" ∷ "--wait" ∷ "s1" ∷ [])
unfolding planner
server_command = refl
