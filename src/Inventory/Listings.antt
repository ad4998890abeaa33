-- ===== src/Inventory/Listings.antt =====
-- How a provider lists the resources of one specification: `_list_all`, `_project_kwargs`,
-- `_list_with_project_filter_fallback` and `_list_spec`. The SDK's proxy is a parameter: its name,
-- its registry and, if it has one, its list method, which returns resources or raises with a text.
use Prim.Native.String.{String}
use yggdrasil_home.Base.{
  Bool, true, false, not, ◌&&◌, ◌||◌, Option, none, some, List, [], ◌∷◌, ◌++◌, map, ◌==◌, ◌<>◌,
  keep, any, if◌then◌else◌, is_blank, is_empty, first_where, text_le,
}
use yggdrasil_home.Base.Sorting.{sort}
use yggdrasil_home.Base.Dict
use yggdrasil_home.Base.Dict.{Dict, member}
use yggdrasil_home.Base.Result.{Result, ok, err, ◌>>=◌}
use yggdrasil_home.Base.Json.{Json, null, string, repr_text}
use yggdrasil_home.Inventory.Filters.{text_of}
use yggdrasil_home.Inventory.Records.{Failure, service_api_error, unsupported_client_error}
use yggdrasil_home.Inventory.Ownership.{resource_attr, belongs_to_project}
use yggdrasil_home.Inventory.Errors.{is_invalid_project_filter_error}
use yggdrasil_home.Inventory.Specs.{ResourceClass, ResourceSpec, normalized_name, parent_name}

pub record Proxy : Type 0 where
  pub type_name : String
  pub resource_registry : Dict ResourceClass
  pub list_method : Option (ResourceClass → Dict Json → Result String (Option (List Json)))

abbrev or_none : Option (List Json) → List Json
or_none none = []
or_none (some objects) = objects

abbrev shown_name : ResourceClass → String
shown_name resource_class =
    if is_blank resource_class.resource_key
    then resource_class.class_name
    else resource_class.resource_key

abbrev listed : ResourceClass → Result String (Option (List Json)) → Result Failure (List Json)
listed resource_class (ok objects) = ok (or_none objects)
listed resource_class (err message) = err (
    service_api_error (
      "listing SDK resource "
      <> (repr_text (shown_name resource_class) <> (" failed: " <> message))))

abbrev list_by :
    String
    → Option (ResourceClass → Dict Json → Result String (Option (List Json)))
    → ResourceClass
    → Dict Json
    → Result Failure (List Json)
list_by type_name none resource_class kwargs =
    err (unsupported_client_error ("SDK proxy " <> (type_name <> " has no generic list method")))
list_by type_name (some list_method) resource_class kwargs =
    listed resource_class (list_method resource_class kwargs)

-- `_list_all`
unfoldable pub list_all : Proxy → ResourceClass → Dict Json → Result Failure (List Json)
unfolding repr_text
list_all proxy resource_class kwargs =
    list_by proxy.type_name proxy.list_method resource_class kwargs

abbrev keyed : Option String → String → Dict Json
keyed none project_id = []
keyed (some key) project_id = (key, string project_id) ∷ []

-- `_project_kwargs`
unfoldable pub project_kwargs : ResourceClass → String → Dict Json
unfolding member first_where
project_kwargs resource_class project_id =
    keyed
      (first_where (member resource_class.query_mapping)
        ("project_id" ∷ "tenant_id" ∷ "owner" ∷ "project" ∷ []))
      project_id

abbrev retried :
    Proxy
    → ResourceClass
    → (kwargs filters : Dict Json) → Result Failure (List Json)
    → Result Failure (List Json)
retried proxy resource_class kwargs filters (ok objects) = ok objects
retried proxy resource_class kwargs filters (err error) =
    if is_empty filters || not (is_invalid_project_filter_error error)
    then err error
    else list_all proxy resource_class (keep (λ (key, value). not (Dict.has filters key)) kwargs)

unfoldable pub list_with_project_filter_fallback :
    Proxy → ResourceClass → (kwargs filters : Dict Json) → Result Failure (List Json)
unfolding list_all is_invalid_project_filter_error keep Dict.has
list_with_project_filter_fallback proxy resource_class kwargs filters =
    retried proxy resource_class kwargs filters (list_all proxy resource_class kwargs)

-- `itertools.product`
unfoldable pub product : List (List Json) → List (List Json)
product [] = [] ∷ []
product (options ∷ rest) = prefixed options (product rest)
  where
    prefixed : List Json → List (List Json) → List (List Json)
    prefixed [] tails = []
    prefixed (option ∷ options) tails = map (λ tail. option ∷ tail) tails ++ prefixed options tails

-- `{placeholder: _resource_attr(parent, placeholder) for ... in zip(placeholders, combination)}`
unfoldable pub parent_kwargs : List String → List Json → Dict Json
unfolding resource_attr
parent_kwargs [] combination = []
parent_kwargs (placeholder ∷ placeholders) [] = []
parent_kwargs (placeholder ∷ placeholders) (parent ∷ parents) =
    (placeholder, resource_attr parent placeholder) ∷ parent_kwargs placeholders parents

abbrev pub is_none : Json → Bool
is_none null = true
is_none value = false

-- `d.update(e)`
unfoldable pub update : Dict Json → Dict Json → Dict Json
unfolding Dict.put
update d [] = d
update d ((key, value) ∷ e) = update (Dict.put d key value) e

abbrev pair_le : String × String → String × String → Bool
pair_le (j, v) (k, w) = if j == k then text_le v w else text_le j k

unfoldable pub kwargs_key : Dict Json → List (String × String)
unfolding text_of sort text_le
kwargs_key kwargs = sort pair_le (map (λ (key, value). (key, text_of value)) kwargs)

unfoldable same_kwargs : (a b : List (String × String)) → Bool
same_kwargs [] [] = true
same_kwargs [] (q ∷ qs) = false
same_kwargs (p ∷ ps) [] = false
same_kwargs ((j, v) ∷ ps) ((k, w) ∷ qs) = (j == k) && (v == w) && same_kwargs ps qs

abbrev Seen : Type 0
Seen = List (List (String × String))

-- The body of the loop of `_list_spec` once for each combination.
unfoldable pub list_combinations :
    Proxy
    → ResourceSpec
    → (project_id : String) → Seen
    → List (List Json)
    → Result Failure (List Json)
unfolding parent_kwargs update project_kwargs kwargs_key same_kwargs any
    list_with_project_filter_fallback
list_combinations proxy spec project_id seen [] = ok []
list_combinations proxy spec project_id seen (combination ∷ combinations) =
    let found = parent_kwargs spec.placeholders combination in
    let filters = project_kwargs spec.resource_class project_id in
    let kwargs = update found filters in
    let key = kwargs_key kwargs in
    let skips = any (λ (placeholder, value). is_none value) found || any (same_kwargs key) seen in
    let rest =
      list_combinations proxy spec project_id (if skips then seen else key ∷ seen) combinations in
    if skips
    then rest
    else (list_with_project_filter_fallback proxy spec.resource_class kwargs filters >>= λ objects.
        rest >>= λ more. ok (objects ++ more))

-- Whether a resource's name is that of a placeholder's parent.
unfoldable pub is_parent : String → String → Bool
unfolding normalized_name parent_name
is_parent placeholder name = normalized_name name == parent_name placeholder

abbrev and_options :
    Option (String × List Json) → Option (List (List Json)) → Option (List (List Json))
and_options none rest = none
and_options (some m) none = none
and_options (some (name, values)) (some rest) = some (values ∷ rest)

-- The first listed parents of each placeholder, if all have some that are listed.
unfoldable pub parent_options : Dict (List Json) → List String → Option (List (List Json))
unfolding first_where is_parent
parent_options parents [] = some []
parent_options parents (placeholder ∷ placeholders) =
    and_options (first_where (λ (name, values). is_parent placeholder name) parents)
      (parent_options parents placeholders)

abbrev nested_objects :
    Proxy → ResourceSpec → String → Option (List (List Json)) → Result Failure (List Json)
nested_objects proxy spec project_id none = ok []
nested_objects proxy spec project_id (some options) =
    if any is_empty options
    then ok []
    else list_combinations proxy spec project_id [] (product options)

-- What `_list_spec` lists before it drops what belongs to other projects.
unfoldable pub spec_objects :
    Proxy → ResourceSpec → String → Dict (List Json) → Result Failure (List Json)
unfolding project_kwargs list_with_project_filter_fallback parent_options any list_combinations
    product
spec_objects proxy spec project_id parents =
    let filters = project_kwargs spec.resource_class project_id in
    if is_empty spec.placeholders
    then list_with_project_filter_fallback proxy spec.resource_class filters filters
    else nested_objects proxy spec project_id (parent_options parents spec.placeholders)

-- `_list_spec`
unfoldable pub list_spec :
    Proxy
    → ResourceSpec
    → (project_id : String) → (parents : Dict (List Json)) → Result Failure (List Json)
unfolding spec_objects keep belongs_to_project
list_spec proxy spec project_id parents = spec_objects proxy spec project_id parents >>= λ objects.
    ok (keep (belongs_to_project project_id) objects)
