-- ===== src/Inventory/Catalog.antt =====
-- The endpoints of a project: the Keystone catalog (`_catalog_endpoints`), the client's list
-- (`_run_endpoint_command`) and the choice between them (`discover_endpoints`).
use Prim.Native.String.{String}
use yggdrasil_home.Base.{
  Bool, ◌||◌, Option, none, some, List, [], ◌∷◌, ◌++◌, ◌==◌, ◌<>◌, keep, lower, strip,
  if◌then◌else◌, is_blank, or_text,
}
use yggdrasil_home.Base.Dict.{Dict, member}
use yggdrasil_home.Base.Int.{is_zero, show_int}
use yggdrasil_home.Base.Result.{Result, ok, err, ◌>>=◌}
use yggdrasil_home.Base.Json.{
  Json, string, array, object, Fields, end, field, to_dict, to_list, truthy, repr_text, get_json,
}
use yggdrasil_home.Deletion.World.{Completed}
use yggdrasil_home.Inventory.Filters.{Endpoint, text_of, boolean, normalize_interface}
use yggdrasil_home.Inventory.Errors.{error_text}
use yggdrasil_home.Inventory.Records.{
  Failure, discovery_error, other_error, field_of, canonical_service_type, parse_endpoint_list,
  some_or_fail,
}

-- `s.endswith(p)`
unfoldable pub has_suffix : String → String → Bool
has_suffix p String.[] = p == ""
has_suffix p (String.◌∷◌ c s) = (String.◌∷◌ c s == p) || has_suffix p s

-- A key of a Keystone v2 catalog that stands for an interface.
unfoldable pub is_interface_key : String → Bool
unfolding has_suffix lower member
is_interface_key key =
    has_suffix "url" (lower key) || member ("public" ∷ "internal" ∷ "admin" ∷ []) (lower key)

abbrev interface_record : String × Json → Json
interface_record (key, value) = object (field "interface" (string key) (field "url" value end))

unfoldable pub interface_records : Dict Json → List Json
unfolding is_interface_key
interface_records [] = []
interface_records ((key, value) ∷ rest) =
    if is_interface_key key
    then interface_record (key, value) ∷ interface_records rest
    else interface_records rest

-- The first of the interfaces that the record has a URL for.
unfoldable pub first_interface : Fields → List String → String
unfolding field_of truthy
first_interface item [] = ""
first_interface item (candidate ∷ candidates) =
    let rest = first_interface item candidates in
    if truthy (field_of item (candidate ∷ (candidate <> "URL") ∷ (candidate <> "_url") ∷ []))
    then candidate
    else rest

unfoldable pub interface_of : Fields → String
unfolding first_interface field_of normalize_interface
interface_of item =
    or_text (normalize_interface (field_of item ("interface" ∷ "Interface" ∷ [])))
      (first_interface item ("public" ∷ "internal" ∷ "admin" ∷ []))

unfoldable pub url_of : Fields → String → Json
unfolding field_of truthy
url_of item interface =
    let url = field_of item ("url" ∷ "URL" ∷ []) in
    if truthy url then url else field_of item ((interface <> "URL") ∷ (interface <> "_url") ∷ [])

-- `not_iterable` is the text of the interpreter's TypeError.
module _ (service_type_of : String → Option String) (not_iterable : Json → String) where
  abbrev enabled_endpoints : List Endpoint → List Endpoint
  enabled_endpoints = keep (λ e. e.enabled)

  -- One endpoint of a service's entry.
  unfoldable pub item_endpoint : Fields → Json → Fields → List Endpoint
  unfolding url_of interface_of field_of text_of canonical_service_type boolean truthy
  item_endpoint service raw_type item =
      let interface = interface_of item in
      let url = url_of item interface in
      if truthy url
      then record {
        endpoint_id =
            or_text (text_of (field_of item ("id" ∷ "ID" ∷ [])))
              (text_of (field_of service ("id" ∷ "service_id" ∷ [])));
        region = text_of (field_of item ("region" ∷ "Region" ∷ []));
        service_name = text_of (field_of service ("name" ∷ "service_name" ∷ []));
        raw_service_type = text_of raw_type;
        service_type = canonical_service_type service_type_of raw_type;
        interface = interface;
        url = text_of url;
        enabled = boolean (field_of item ("enabled" ∷ "Enabled" ∷ []));
      }
        ∷ []
      else []

  unfoldable pub item_endpoints : Fields → Json → List Json → List Endpoint
  unfolding item_endpoint
  item_endpoints service raw_type [] = []
  item_endpoints service raw_type (object item ∷ rest) =
      item_endpoint service raw_type item ++ item_endpoints service raw_type rest
  item_endpoints service raw_type (other ∷ rest) = item_endpoints service raw_type rest

  -- `service_endpoints or []`, as what is iterated: the characters of a text are no records.
  unfoldable pub records_at : Json → Result Failure (List Json)
  unfolding truthy interface_records
  records_at (object interfaces) = ok (interface_records (to_dict interfaces))
  records_at (array items) = ok (to_list items)
  records_at (string s) = ok []
  records_at other = if truthy other then err (other_error (not_iterable other)) else ok []

  unfoldable pub service_endpoints : Fields → Result Failure (List Endpoint)
  unfolding item_endpoints records_at field_of truthy get_json
  service_endpoints service =
      let raw_type = field_of service ("type" ∷ "service_type" ∷ []) in
      if truthy raw_type
      then (records_at (get_json service "endpoints") >>= λ items.
          ok (item_endpoints service raw_type items))
      else ok []

  unfoldable pub catalog_list : List Json → Result Failure (List Endpoint)
  unfolding service_endpoints
  catalog_list [] = ok []
  catalog_list (object service ∷ rest) = do
    first ← service_endpoints service
    more ← catalog_list rest
    ok (first ++ more)
  catalog_list (other ∷ rest) = catalog_list rest

  unfoldable pub catalog_endpoints : List Json → Result Failure (List Endpoint)
  unfolding catalog_list keep
  catalog_endpoints catalog = catalog_list catalog >>= λ endpoints.
      some_or_fail service_type_of "the Keystone service catalog has no enabled endpoints"
        (enabled_endpoints endpoints)

  -- How `subprocess.run` of the client's `endpoint list` ends.
  pub data ClientRun : Type 0 where
    ended : Completed → ClientRun
    not_found : ClientRun
    timed_out : ClientRun

  abbrev pub ClientAnswer : Type 0
  ClientAnswer = Option (Result Failure (List Endpoint))

  abbrev suffix_of : String → String
  suffix_of detail = if is_blank detail then "" else ": " <> detail

  -- None is the `FileNotFoundError`.
  unfoldable pub run_endpoint_command :
      (json_loads : String → Result String Json) → String → ClientRun → ClientAnswer
  unfolding parse_endpoint_list is_zero show_int strip
  run_endpoint_command json_loads binary not_found = none
  run_endpoint_command json_loads binary timed_out =
      some (err (discovery_error (binary <> " endpoint list timed out after 60 seconds")))
  run_endpoint_command json_loads binary (ended c) =
      if is_zero c.returncode
      then some (parse_endpoint_list service_type_of (json_loads c.stdout))
      else some (
          err (
            discovery_error (
              binary
              <> (" endpoint list failed with exit code "
                  <> (show_int c.returncode <> suffix_of (strip (or_text c.stderr c.stdout)))))))

  -- Why the catalog did not serve.
  abbrev catalog_failure : Failure → String
  catalog_failure (other_error m) =
      "could not read the Keystone service catalog with openstacksdk: " <> m
  catalog_failure e = error_text e

  abbrev after_client : String → Failure → ClientAnswer → Result Failure (List Endpoint)
  after_client binary e none = err (
      discovery_error (
        "openstacksdk endpoint discovery failed: "
        <> (catalog_failure e <> ("; CLI fallback " <> (repr_text binary <> " is unavailable")))))
  after_client binary e (some (ok endpoints)) = ok endpoints
  after_client binary e (some (err f)) = err (
      discovery_error (
        "openstacksdk endpoint discovery failed: "
        <> (catalog_failure e <> ("; CLI fallback also failed: " <> error_text f))))

  -- `discover_endpoints`: the connection's catalog or what reading it raises, and the client.
  unfoldable pub discover_endpoints :
      Result Failure (List Json) → String → ClientAnswer → Result Failure (List Endpoint)
  unfolding catalog_endpoints repr_text
  discover_endpoints catalog binary answer = elim (catalog >>= catalog_endpoints) [
    | ok endpoints ↦ ok endpoints
    | err e ↦ after_client binary e answer
  ]
