-- ===== src/Inventory/Filters.antt =====
-- The tests by which the inventory leaves out services and resources, and how it reads flags and
-- interface names of the catalog.
pub mod Deletable
use Prim.Native.String.{String}
use yggdrasil_home.Base.{
  Bool, true, false, not, ◌||◌, Option, none, some, List, [], ◌∷◌, any, lower, strip,
}
use yggdrasil_home.Base.Dict
use yggdrasil_home.Base.Dict.{Dict, member}
use yggdrasil_home.Base.Json.{Json, null, flag, number, string, array, object, str}
use yggdrasil_home.Inventory.Tables.{
  ignored_service_types, non_deletable_resource_names, non_deletable_resource_names_by_service,
}

pub record Endpoint : Type 0 where
  pub endpoint_id : String
  pub region : String
  pub service_name : String
  pub raw_service_type : String
  pub service_type : String
  pub interface : String
  pub url : String
  pub enabled : Bool

-- `_text`
unfoldable pub text_of : Json → String
unfolding str
text_of null = ""
text_of value = str value

abbrev is_ignored : String → Bool
is_ignored value = member ignored_service_types (lower (strip value))

-- `_is_ignored_endpoint`
unfoldable pub is_ignored_endpoint : Endpoint → Bool
unfolding any member lower strip
is_ignored_endpoint endpoint =
    any is_ignored (endpoint.service_type ∷ endpoint.raw_service_type ∷ endpoint.service_name ∷ [])

-- `_non_deletable_resource`
unfoldable pub non_deletable_resource : String → String → Bool
unfolding member Dict.get_or
non_deletable_resource service_type resource_name =
    member non_deletable_resource_names resource_name
    || member (Dict.get_or non_deletable_resource_names_by_service service_type []) resource_name

abbrev says_no : String → Bool
says_no value = member ("0" ∷ "false" ∷ "no" ∷ "disabled" ∷ []) value

-- `_boolean`, whose default is true
unfoldable pub boolean : Json → Bool
unfolding text_of lower strip member
boolean null = true
boolean (flag b) = b
boolean value = not (says_no (lower (strip (text_of value))))

abbrev interface_names : Dict String
interface_names = ("publicurl", "public") ∷ ("internalurl", "internal") ∷ ("adminurl", "admin") ∷ []

unfoldable pub normalize_interface : Json → String
unfolding text_of lower strip Dict.get_or
normalize_interface value =
    let name = lower (strip (text_of value)) in Dict.get_or interface_names name name
