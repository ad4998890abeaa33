-- ===== src/Deletion/Tests/Runs.antt =====
-- Runs of the deletion command, and each theorem on its runs applied to one.
use yggdrasil_home.Base.{◌≡◌, refl, Bool, true, false, some, List, [], ◌∷◌, String}
use yggdrasil_home.Base.Int.{pos}
use yggdrasil_home.Base.Json.{object, Fields}
use yggdrasil_home.Samples.Reports.{report, broken_report}
use yggdrasil_home.Deletion.World.{World, completed, returned, contents, done, command}
use yggdrasil_home.Deletion.World.Effects.{effects_in}
use yggdrasil_home.Deletion.Main.{Args, acquire_report, main, inventory_argv}
use yggdrasil_home.Deletion.Main.Safety.{main_dry, main_refuses, has_issues, inventory_effects}
use yggdrasil_home.Deletion.Tests.{broken_plan}

-- Every command succeeds, and the report is the file's, whatever its text.
abbrev world_with : Fields → World
world_with fs = record {
  reply = λ h. completed (record { returncode = pos 0; stdout = "{}"; stderr = "" });
  sdk = λ h. returned "" "";
  now = λ h. 0;
  read = λ path. contents path;
  json_loads = λ s. some (object fs);
}

abbrev args_with : String → String → Bool → Args
args_with path project confirmed = record {
  report = path;
  project = project;
  executable = "python3";
  inventory_script = "list-project-resources.py";
  openstack_bin = "openstack";
  interface = "";
  region = "";
  allow_inventory_errors = false;
  allow_service_api_errors = false;
  yes_flag = confirmed;
  verify = false;
  wait_seconds = 1800000;
  poll_seconds = 5000;
}

abbrev inventory : List String
inventory =
    "python3" ∷ "list-project-resources.py" ∷ "--project" ∷ "demo" ∷ "--format" ∷ "json"
    ∷ "--strict" ∷ "--openstack-bin" ∷ "openstack" ∷ []

main_dry_example :
    effects_in (main (world_with report) (args_with "" "demo" false) 100 []).1
    ≡ command inventory ∷ []
unfolding inventory_effects inventory_argv
main_dry_example = main_dry (world_with report) (args_with "" "demo" false) 100 [] refl

acquired :
    (acquire_report (world_with broken_report) (args_with "report.json" "" true) []).0
    ≡ done broken_report
unfolding acquire_report
acquired = refl

main_refuses_example :
    ((main (world_with broken_report) (args_with "report.json" "" true) 100 []).0 ≡ done 2)
    × (effects_in (main (world_with broken_report) (args_with "report.json" "" true) 100 []).1 ≡ [])
main_refuses_example =
    main_refuses (world_with broken_report) (args_with "report.json" "" true) 100 [] broken_report
      acquired (has_issues [] _ [] broken_plan)
