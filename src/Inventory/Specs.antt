-- ===== src/Inventory/Specs.antt =====
-- What a provider can list: the resource classes of a proxy, the parents that their paths name and
-- the specifications in the order in which they are listed. A resource class is what the program
-- reads of it, the mapping of its query parameters included.
use Prim.Native.String.{String}
use yggdrasil_home.Base.{
  ℕ, zero, suc, ◌+◌, Bool, not, ◌&&◌, ◌||◌, Option, none, some, List, [], ◌∷◌, ◌==◌, Char, code,
  eqb, leb, lower, keep, any, length, drop_prefix, text_le, if◌then◌else◌, is_blank, is_empty,
}
use yggdrasil_home.Base.Sorting.{sort}
use yggdrasil_home.Base.Distinct.{distinct}
use yggdrasil_home.Base.Dict
use yggdrasil_home.Base.Dict.{Dict, member}
use yggdrasil_home.Inventory.Tables.{global_resource_names, project_scoped_exceptions}
use yggdrasil_home.Inventory.Filters.{Endpoint, non_deletable_resource}
use yggdrasil_home.Inventory.Catalog.{has_suffix}
use yggdrasil_home.Inventory.Ownership.{span_by}

pub record ResourceClass : Type 0 where
  pub class_name : String
  pub resource_key : String
  pub base_path : String
  pub allow_list : Bool
  pub query_mapping : List String
  pub attributes : List String

pub record ResourceSpec : Type 0 where
  pub name : String
  pub resource_class : ResourceClass
  pub placeholders : List String

abbrev text_length : String → ℕ
text_length String.[] = 0
text_length (String.◌∷◌ c s) = suc (text_length s)

abbrev not_closing : Char → Bool
not_closing c = not (eqb (code c) 41)

abbrev closed : String × String → Option String
closed (name, rest) =
    if is_blank name
    then none
    else elim (drop_prefix ")s" rest) [ none ↦ none | some _ ↦ some name ]

abbrev placeholder_in : Option String → Option String
placeholder_in none = none
placeholder_in (some rest) = closed (span_by not_closing rest)

-- `re.findall(r"%\(([^)]+)\)s", s)`, after the characters that the last match took.
unfoldable pub placeholders_from : ℕ → String → List String
unfolding span_by drop_prefix
placeholders_from n String.[] = []
placeholders_from (suc n) (String.◌∷◌ c s) = placeholders_from n s
placeholders_from zero (String.◌∷◌ c s) =
    elim (placeholder_in (drop_prefix "%(" (String.◌∷◌ c s))) [
      | none ↦ placeholders_from zero s
      | some name ↦ name ∷ placeholders_from (text_length name + 3) s
    ]

unfoldable pub resource_placeholders : ResourceClass → List String
unfolding placeholders_from distinct
resource_placeholders resource_class =
    distinct ◌==◌ [] (placeholders_from 0 resource_class.base_path)

-- `_registry`, of the proxy's registry.
unfoldable pub registry : Dict ResourceClass → Dict ResourceClass
unfolding keep
registry resources = keep (λ (name, resource_class). resource_class.allow_list) resources

abbrev project_keys : List String
project_keys = "project_id" ∷ "tenant_id" ∷ "owner" ∷ "project" ∷ []

unfoldable pub has_project_field : ResourceClass → Bool
unfolding member any
has_project_field resource_class =
    any (member resource_class.query_mapping) project_keys
    || any (member resource_class.attributes) project_keys

unfoldable pub keep_text : (Char → Bool) → String → String
keep_text p String.[] = ""
keep_text p (String.◌∷◌ c s) = let rest = keep_text p s in if p c then String.◌∷◌ c rest else rest

abbrev is_alphanumeric : Char → Bool
is_alphanumeric c = (leb 97 (code c) && leb (code c) 122) || (leb 48 (code c) && leb (code c) 57)

unfoldable pub normalized_name : String → String
unfolding lower keep_text
normalized_name value = keep_text is_alphanumeric (lower value)

-- `s[: -n]`
unfoldable drop_last : ℕ → String → String
drop_last n String.[] = ""
drop_last n (String.◌∷◌ c s) =
    let rest = drop_last n s in if leb n (text_length s) then String.◌∷◌ c rest else ""

unfoldable pub parent_name : String → String
unfolding normalized_name has_suffix drop_last
parent_name placeholder = normalized_name (
    if has_suffix "_id" placeholder
    then drop_last 3 placeholder
    else if has_suffix "_name" placeholder
    then drop_last 5 placeholder
    else placeholder)

abbrev exceptions_of : Endpoint → List String
exceptions_of endpoint = Dict.get_or project_scoped_exceptions endpoint.service_type []

-- What both kinds of specifications leave out.
unfoldable pub is_left_out : Endpoint → String → Bool
unfolding Dict.get_or member non_deletable_resource
is_left_out endpoint name =
    (member global_resource_names name && not (member (exceptions_of endpoint) name))
    || non_deletable_resource endpoint.service_type name

unfoldable pub is_direct : Endpoint → ResourceSpec → Bool
unfolding is_left_out Dict.get_or member has_project_field
is_direct endpoint spec =
    not (is_left_out endpoint spec.name)
    && is_empty spec.placeholders
    && (has_project_field spec.resource_class || member (exceptions_of endpoint) spec.name)

unfoldable pub is_nested : Endpoint → ResourceSpec → Bool
unfolding is_left_out
is_nested endpoint spec =
    not (is_left_out endpoint spec.name)
    && not ((endpoint.service_type == "object-store") && (spec.name == "object"))
    && not (is_empty spec.placeholders)

unfoldable pub specs_of : Dict ResourceClass → List ResourceSpec
unfolding resource_placeholders
specs_of [] = []
specs_of ((name, resource_class) ∷ resources) =
    record {
      name = name;
      resource_class = resource_class;
      placeholders = resource_placeholders resource_class;
    }
    ∷ specs_of resources

abbrev name_le : ResourceSpec → ResourceSpec → Bool
name_le a b = text_le a.name b.name

abbrev depth_le : ResourceSpec → ResourceSpec → Bool
depth_le a b =
    let m = length a.placeholders in
    let n = length b.placeholders in if eqb m n then text_le a.name b.name else leb m n

-- `_direct_specs`
unfoldable pub direct_specs : Endpoint → Dict ResourceClass → List ResourceSpec
unfolding is_direct specs_of keep sort text_le
direct_specs endpoint resources = sort name_le (keep (is_direct endpoint) (specs_of resources))

-- `_nested_specs`
unfoldable pub nested_specs : Endpoint → Dict ResourceClass → List ResourceSpec
unfolding is_nested specs_of keep sort text_le
nested_specs endpoint resources = sort depth_le (keep (is_nested endpoint) (specs_of resources))
