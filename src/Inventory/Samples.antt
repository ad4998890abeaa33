-- ===== src/Inventory/Samples.antt =====
-- A compute service with a server, whose interfaces are listed below it, and a keypair class that the
-- service refuses to list.
use Prim.Native.String.{String}
use yggdrasil_home.Base.{Bool, true, Option, some, List, [], ◌∷◌, ◌==◌, if◌then◌else◌}
use yggdrasil_home.Base.Dict.{Dict}
use yggdrasil_home.Base.Result.{Result, ok, err}
use yggdrasil_home.Base.Json.{Json, object, string, field, end}
use yggdrasil_home.Inventory.Filters.{Endpoint}
use yggdrasil_home.Inventory.Specs.{ResourceClass}
use yggdrasil_home.Inventory.Listings.{Proxy}
use yggdrasil_home.Inventory.Collect.{Collected, Project, Raised}

abbrev pub endpoint_at : String → String → Endpoint
endpoint_at service_type interface = record {
  endpoint_id = "e1";
  region = "RegionOne";
  service_name = "nova";
  raw_service_type = service_type;
  service_type = service_type;
  interface = interface;
  url = "http://nova";
  enabled = true;
}

abbrev pub resource_at : String → String → Json
resource_at id project = object (field "id" (string id) (field "project_id" (string project) end))

abbrev class_at : String → String → ResourceClass
class_at name path = record {
  class_name = name;
  resource_key = name;
  base_path = path;
  allow_list = true;
  query_mapping = "project_id" ∷ [];
  attributes = [];
}

abbrev answer : Bool → ResourceClass → Dict Json → Result String (Option (List Json))
answer refuses c kwargs =
    if c.class_name == "keypair"
    then err (if refuses then "403 Forbidden" else "404 Not Found")
    else ok (some (resource_at "a" "p1" ∷ resource_at "b" "p2" ∷ []))

abbrev pub compute : Bool → Proxy
compute refuses = record {
  type_name = "Proxy";
  resource_registry =
      ("server", class_at "server" "/servers")
      ∷ ("keypair", class_at "keypair" "/os-keypairs")
      ∷ ("server_interface", class_at "server_interface" "/servers/%(server_id)s/os-interface")
      ∷ [];
  list_method = some (answer refuses);
}

abbrev pub project_one : Project
project_one = record {
  project_id = "p1";
  name = "one";
  raw = object (field "id" (string "p1") end);
}

abbrev nothing_collected : Collected
nothing_collected = record { errors = []; listing = record { objects = []; result = [] } }

abbrev pub returned : Option (Result Raised Collected) → Collected
returned (some (ok c)) = c
returned other = nothing_collected
