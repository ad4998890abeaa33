-- ===== src/Inventory/Records.antt =====
-- Endpoints read from records of the client's list and of the catalog: `_field`,
-- `canonical_service_type`, `_endpoint_from_record` and `parse_endpoint_list_json`.
use Prim.Native.String.{String}
use yggdrasil_home.Base.{
  not, ◌||◌, Option, none, some, List, [], ◌∷◌, ◌==◌, ◌<>◌, lower, strip, if◌then◌else◌, is_blank,
}
use yggdrasil_home.Base.Dict
use yggdrasil_home.Base.Dict.{Dict}
use yggdrasil_home.Base.Result.{Result, ok, err}
use yggdrasil_home.Base.Json.{Json, null, array, object, Fields, to_dict, to_list, truthy}
use yggdrasil_home.Inventory.Filters.{Endpoint, text_of, boolean, normalize_interface}

-- The exceptions of the inventory by class and text; any other exception is `other_error`.
pub data Failure : Type 0 where
  service_api_error : String → Failure
  unsupported_client_error : String → Failure
  discovery_error : String → Failure
  inventory_error : String → Failure
  other_error : String → Failure

-- `{str(key).casefold(): value for ...}.get(k)`: the last of the keys stands.
unfoldable pub lowered : Dict Json → String → Option Json
unfolding lower
lowered [] k = none
lowered ((j, v) ∷ rest) k = elim (lowered rest k) [
  | some w ↦ some w
  | none ↦ if lower j == k then some v else none
]

abbrev pub or_next : Option Json → Json → Json
or_next none rest = rest
or_next (some null) rest = rest
or_next (some value) rest = value

-- One name: the record's own key as it stands, or a key of another case with a value.
abbrev pub named_or : Option Json → Option Json → Json → Json
named_or (some value) other rest = value
named_or none other rest = or_next other rest

-- `_field`
unfoldable pub field_of : Fields → List String → Json
unfolding lowered lower Dict.get
field_of record_fields [] = null
field_of record_fields (name ∷ names) =
    named_or (Dict.get (to_dict record_fields) name) (lowered (to_dict record_fields) (lower name))
      (field_of record_fields names)

-- `service_type_of` is `ServiceTypes().get_service_type` of os-service-types, or none where the
-- package is missing or does not know the name.
module _ (service_type_of : String → Option String) where
  abbrev known_or : Option String → String → String
  known_or none value = lower value
  known_or (some canonical) value = if is_blank canonical then lower value else canonical

  unfoldable pub canonical_service_type : Json → String
  unfolding text_of strip lower
  canonical_service_type value =
      let name = strip (text_of value) in
      if is_blank name then name else known_or (service_type_of name) name

  unfoldable pub endpoint_from_record : Fields → Option Endpoint
  unfolding field_of text_of canonical_service_type normalize_interface boolean truthy
  endpoint_from_record fields =
      let raw_type = field_of fields ("Service Type" ∷ "service_type" ∷ "type" ∷ []) in
      let url = field_of fields ("URL" ∷ "url" ∷ "publicURL" ∷ "public_url" ∷ []) in
      if not (truthy raw_type) || not (truthy url)
      then none
      else some (record {
        endpoint_id = text_of (field_of fields ("ID" ∷ "id" ∷ []));
        region = text_of (field_of fields ("Region" ∷ "region" ∷ []));
        service_name = text_of (field_of fields ("Service Name" ∷ "service_name" ∷ "name" ∷ []));
        raw_service_type = text_of raw_type;
        service_type = canonical_service_type raw_type;
        interface = normalize_interface (field_of fields ("Interface" ∷ "interface" ∷ []));
        url = text_of url;
        enabled = boolean (field_of fields ("Enabled" ∷ "enabled" ∷ []));
      })

  abbrev add_enabled : Option Endpoint → List Endpoint → List Endpoint
  add_enabled none rest = rest
  add_enabled (some endpoint) rest = if endpoint.enabled then endpoint ∷ rest else rest

  unfoldable pub endpoints_of : List Json → List Endpoint
  unfolding endpoint_from_record
  endpoints_of [] = []
  endpoints_of (object fields ∷ rest) =
      add_enabled (endpoint_from_record fields) (endpoints_of rest)
  endpoints_of (other ∷ rest) = endpoints_of rest

  abbrev pub some_or_fail : String → List Endpoint → Result Failure (List Endpoint)
  some_or_fail message [] = err (discovery_error message)
  some_or_fail message (e ∷ es) = ok (e ∷ es)

  unfoldable pub endpoints_in : Json → Result Failure (List Endpoint)
  unfolding endpoints_of
  endpoints_in (array records) =
      some_or_fail "openstack endpoint list returned no enabled endpoints"
        (endpoints_of (to_list records))
  endpoints_in other = err (discovery_error "openstack endpoint list JSON was not an array")

  -- What `json.loads` returns, or the text of its exception.
  unfoldable pub parse_endpoint_list : Result String Json → Result Failure (List Endpoint)
  unfolding endpoints_in
  parse_endpoint_list (ok value) = endpoints_in value
  parse_endpoint_list (err message) =
      err (discovery_error ("openstack endpoint list returned invalid JSON: " <> message))
