-- ===== src/Inventory/Related.antt =====
-- What an inventory drops of the resources that it has listed: executions of other projects'
-- workflows and the default security group.
pub mod Excluded
pub mod Kept
use Prim.Native.String.{String}
use yggdrasil_home.Base.{
  Bool, true, false, not, ◌&&◌, ◌||◌, Option, none, some, List, [], ◌∷◌, map, ◌==◌, keep, lower,
  is_empty, if◌then◌else◌,
}
use yggdrasil_home.Base.Dict
use yggdrasil_home.Base.Dict.{Dict, member}
use yggdrasil_home.Base.Json.{Json, null, object, field, end}
use yggdrasil_home.Inventory.Filters.{text_of}
use yggdrasil_home.Inventory.Ownership.{value_of}

-- `_resource_to_dict`, of JSON values: `_jsonable` keeps them.
unfoldable pub resource_to_dict : Json → Json
resource_to_dict (object fs) = object fs
resource_to_dict other = object (field "value" other end)

-- `objects_by_resource` and `result`.
pub record Listing : Type 0 where
  pub objects : Dict (List Json)
  pub result : Dict (List Json)

unfoldable pub put_objects : Listing → String → List Json → Listing
unfolding Dict.put resource_to_dict
put_objects l name objects = record {
  objects = Dict.put l.objects name objects;
  result = Dict.put l.result name (map resource_to_dict objects);
}

abbrev id_text : Json → String
id_text resource = text_of (value_of resource "id")

abbrev add_id : Json → Json → List String → List String
add_id workflow null ids = ids
add_id workflow id ids = text_of id ∷ ids

unfoldable pub ids_of : List Json → List String
unfolding value_of text_of
ids_of [] = []
ids_of (workflow ∷ workflows) = add_id workflow (value_of workflow "id") (ids_of workflows)

abbrev execution_names : List String
execution_names = "execution" ∷ "workflow_execution" ∷ []

-- `_filter_related_resources`
unfoldable pub filter_related_resources :
    (service_type resource_name : String) (objects : List Json) (parents : Dict (List Json))
    → List Json
unfolding ids_of member keep value_of text_of Dict.get_or
filter_related_resources service_type resource_name objects parents =
    if (service_type == "workflow") && member execution_names resource_name
    then keep
        (λ obj.
          member (ids_of (Dict.get_or parents "workflow" []))
            (text_of (value_of obj "workflow_id")))
        objects
    else objects

unfoldable pub is_default : Json → Bool
unfolding value_of text_of lower
is_default group = lower (text_of (value_of group "name")) == "default"

abbrev pub not_among : List String → String → Json → Bool
not_among ids key resource = not (member ids (text_of (value_of resource key)))

abbrev pub without_rules : List String → Option (List Json) → Listing → Listing
without_rules ids none l = l
without_rules ids (some rules) l =
    put_objects l "security_group_rule" (keep (not_among ids "security_group_id") rules)

abbrev pub without_groups : List String → List Json → Listing → Listing
without_groups [] groups l = l
without_groups (id ∷ ids) groups l =
    let fewer = put_objects l "security_group" (keep (not_among (id ∷ ids) "id") groups) in
    without_rules (id ∷ ids) (Dict.get fewer.objects "security_group_rule") fewer

unfoldable pub default_ids : List Json → List String
unfolding is_default keep value_of text_of
default_ids groups = map id_text (keep is_default groups)

-- `_exclude_default_security_group`
unfoldable pub exclude_default_security_group : Listing → Listing
unfolding default_ids put_objects keep member value_of text_of Dict.get Dict.get_or
exclude_default_security_group l =
    let groups = Dict.get_or l.objects "security_group" [] in
    without_groups (default_ids groups) groups l
