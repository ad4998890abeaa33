-- ===== src/Inventory/Report.antt =====
-- `inventory`: the report of the services that are not ignored. Finding a provider and running it are
-- parameters; a provider's run, for the project and the strictness of the report, gives what it
-- collects, or what it raises, and its problems. The report is modelled less the project's name and
-- the metadata of the providers, which are copied from the endpoints.
pub mod Complete
pub mod Found
pub mod Held
use Prim.Native.String.{String}
use yggdrasil_home.Base.{
  Bool, true, false, not, ◌&&◌, List, [], ◌∷◌, ◌++◌, map, ◌<>◌, if◌then◌else◌, is_empty, keep, join,
}
use yggdrasil_home.Base.Dict
use yggdrasil_home.Base.Dict.{Dict, member}
use yggdrasil_home.Base.Result.{Result, ok, err, ◌>>=◌}
use yggdrasil_home.Base.Json.{Json}
use yggdrasil_home.Inventory.Filters.{Endpoint, is_ignored_endpoint}
use yggdrasil_home.Inventory.Records.{Failure, inventory_error, other_error}
use yggdrasil_home.Inventory.Errors.{Problem, error_text}

-- An entry of the report's `errors`.
pub record Issue : Type 0 where
  pub service : String
  pub resource : String
  pub category : String
  pub error : String

pub record Report : Type 0 where
  pub endpoints : List Endpoint
  pub resources : Dict (Dict (List Json))
  pub errors : List Issue

abbrev pub Collection : Type 0
Collection = Result Failure (Dict (List Json)) × List Problem

abbrev pub client_issue : Endpoint → Failure → Issue
client_issue endpoint e = record {
  service = endpoint.service_type;
  resource = "(client)";
  category = "inventory";
  error =
      endpoint.service_type
      <> (" ("
          <> (endpoint.raw_service_type <> (", " <> (endpoint.url <> ("): " <> error_text e)))));
}

abbrev pub provider_issue : Endpoint → Failure → Issue
provider_issue endpoint e = record {
  service = endpoint.service_type;
  resource = "(provider)";
  category = "inventory";
  error = error_text e;
}

abbrev pub problem_issue : Endpoint → Problem → Issue
problem_issue endpoint p = record {
  service = endpoint.service_type;
  resource = p.resource;
  category = p.category;
  error = p.error;
}

-- The services whose providers keep the connection that they are given.
unfoldable pub keeps_connection : Endpoint → Bool
unfolding member
keeps_connection endpoint =
    member ("application-container" ∷ "identity" ∷ "key-manager" ∷ []) endpoint.service_type

module _ {P : Type 0} (resolve_provider : (keeps : Bool) → Endpoint → Result Failure P)
    (run : P → Collection) where
  abbrev pub Found : Type 0
  Found = List (Endpoint × P) × List Issue

  abbrev pub add_found : Endpoint → P → Found → Found
  add_found endpoint provider (providers, errors) = ((endpoint, provider) ∷ providers, errors)

  abbrev pub add_issue : Endpoint → Failure → Found → Found
  add_issue endpoint e (providers, errors) = (providers, client_issue endpoint e ∷ errors)

  -- Only an InventoryError is caught.
  abbrev pub with_provider :
      Endpoint → Result Failure P → Result Failure Found → Result Failure Found
  with_provider endpoint (ok provider) rest =
      rest >>= λ found. ok (add_found endpoint provider found)
  with_provider endpoint (err (other_error e)) rest = err (other_error e)
  with_provider endpoint (err e) rest = rest >>= λ found. ok (add_issue endpoint e found)

  -- The providers and the failures of the first loop.
  unfoldable pub resolve_all : List Endpoint → Result Failure Found
  unfolding keeps_connection
  resolve_all [] = ok ([], [])
  resolve_all (endpoint ∷ endpoints) =
      with_provider endpoint (resolve_provider (keeps_connection endpoint) endpoint)
        (resolve_all endpoints)

  abbrev pub with_collection : Report → Endpoint → Dict (List Json) → List Issue → Report
  with_collection report endpoint collected issues = record {
    endpoints = report.endpoints;
    resources = Dict.put report.resources endpoint.service_type collected;
    errors = report.errors ++ issues;
  }

  abbrev pub add_collection : Bool → Endpoint → Report → Collection → Result Failure Report
  add_collection strict endpoint report (ok collected, problems) =
      ok (with_collection report endpoint collected (map (problem_issue endpoint) problems))
  add_collection strict endpoint report (err e, problems) =
      if strict
      then err e
      else ok (
          with_collection report endpoint []
            (provider_issue endpoint e ∷ map (problem_issue endpoint) problems))

  -- The second loop.
  unfoldable pub collect_all : Bool → List (Endpoint × P) → Report → Result Failure Report
  unfolding Dict.put
  collect_all strict [] report = ok report
  collect_all strict ((endpoint, provider) ∷ providers) report =
      add_collection strict endpoint report (run provider) >>= collect_all strict providers

  abbrev pub preflight : Bool → List Endpoint → Found → Result Failure Report
  preflight strict endpoints (providers, errors) =
      if strict && not (is_empty errors)
      then err (
          inventory_error (
            "service client preflight failed; no resources were listed:\n- "
            <> join "\n- " (map (λ issue. issue.error) errors)))
      else collect_all strict providers
          (record { endpoints = endpoints; resources = []; errors = errors })

  unfoldable pub inventory : Bool → List Endpoint → Result Failure Report
  unfolding resolve_all collect_all is_ignored_endpoint keep
  inventory strict endpoints =
      let kept = keep (λ endpoint. not (is_ignored_endpoint endpoint)) endpoints in
      resolve_all kept >>= preflight strict kept
