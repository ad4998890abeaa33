-- ===== src/Inventory/Errors.antt =====
-- How an inventory reads and records failures: `_is_missing_resource_error`,
-- `_is_invalid_project_filter_error` and `_provider_error`. Word characters are those of ASCII.
use Prim.Native.String.{String}
use yggdrasil_home.Base.{
  Bool, true, false, not, ◌&&◌, ◌||◌, Char, code, eqb, leb, lower, contains_text, drop_prefix,
  Option, none, some,
}
use yggdrasil_home.Inventory.Records.{
  Failure, service_api_error, unsupported_client_error, discovery_error, inventory_error,
  other_error,
}

-- `str(error)`
abbrev pub error_text : Failure → String
error_text (service_api_error message) = message
error_text (unsupported_client_error message) = message
error_text (discovery_error message) = message
error_text (inventory_error message) = message
error_text (other_error message) = message

-- `\w`
unfoldable is_word : Char → Bool
is_word c =
    let n = code c in
    (leb 48 n && leb n 57) || (leb 97 n && leb n 122) || (leb 65 n && leb n 90) || eqb n 95

unfoldable word_stops : String → Bool
unfolding is_word
word_stops String.[] = true
word_stops (String.◌∷◌ c s) = not (is_word c)

abbrev stops_after : Option String → Bool
stops_after none = false
stops_after (some rest) = word_stops rest

-- `re.search(r"\bw\b", s)`, where `inside` says that a word character stands before `s`.
unfoldable pub has_word : (inside : Bool) (w s : String) → Bool
unfolding is_word word_stops drop_prefix
has_word inside w String.[] = false
has_word inside w (String.◌∷◌ c s) =
    (not inside && stops_after (drop_prefix w (String.◌∷◌ c s))) || has_word (is_word c) w s

unfoldable pub is_missing_resource_error : Failure → Bool
unfolding lower has_word contains_text
is_missing_resource_error error =
    let text = lower (error_text error) in
    has_word false "404" text
    || contains_text "not found" text
    || contains_text "could not be found" text
    || contains_text "resource could not be found" text

unfoldable pub is_invalid_project_filter_error : Failure → Bool
unfolding lower has_word contains_text
is_invalid_project_filter_error error =
    let text = lower (error_text error) in
    contains_text "invalid filters" text
    && (has_word false "project_id" text || has_word false "tenant_id" text)

-- An entry of a provider's `errors`.
pub record Problem : Type 0 where
  pub resource : String
  pub category : String
  pub error : String

abbrev category_of : Failure → String
category_of (service_api_error message) = "service_api"
category_of other = "inventory"

unfoldable pub provider_error : String → Failure → Problem
provider_error resource_type message = record {
  resource = resource_type;
  category = category_of message;
  error = error_text message;
}
