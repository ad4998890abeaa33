-- ===== src/Inventory/Selection.antt =====
-- `select_endpoints`: one endpoint for each service type, by interface, region and rank.
pub mod Order
pub mod Groups
pub mod Chosen
use Prim.Native.String.{String}
use yggdrasil_home.Base.{
  ℕ, zero, suc, ◌+◌, ◌-◌, ◌*◌, Bool, true, false, not, ◌&&◌, ◌||◌, Option, none, some, List, [],
  ◌∷◌, ◌++◌, map, ◌==◌, ◌<>◌, keep, lower, Char, code, eqb, leb, if◌then◌else◌, is_blank, or_text,
  join, text_le,
}
use yggdrasil_home.Base.Dict
use yggdrasil_home.Base.Dict.{Dict}
use yggdrasil_home.Base.Distinct.{distinct}
use yggdrasil_home.Base.Sorting.{sort}
use yggdrasil_home.Base.Result.{Result, ok, err, ◌>>=◌, collect}
use yggdrasil_home.Base.Json.{Json, string, repr_text}
use yggdrasil_home.Order.{lexicographic}
use yggdrasil_home.Inventory.Filters.{Endpoint, is_ignored_endpoint, normalize_interface}
use yggdrasil_home.Inventory.Records.{Failure, discovery_error}

is_digit : Char → Bool
is_digit c = leb 48 (code c) && leb (code c) 57

-- `int(s)` of a text that is digits from here to its end, with the value so far.
digits_value : ℕ → String → Option ℕ
unfolding is_digit
digits_value acc String.[] = some acc
digits_value acc (String.◌∷◌ c s) =
    let rest = digits_value (acc * 10 + (code c - 48)) s in if is_digit c then rest else none

-- `(\d+)$` at the start of the text
whole_number : String → Option ℕ
unfolding digits_value
whole_number String.[] = none
whole_number (String.◌∷◌ c s) = digits_value 0 (String.◌∷◌ c s)

abbrev or_later : Option ℕ → Option ℕ → Option ℕ
or_later (some n) rest = some n
or_later none rest = rest

-- `re.search(r"v(\d+)$", s)`, and 0 without a match
version_in : String → Option ℕ
unfolding whole_number
version_in String.[] = none
version_in (String.◌∷◌ c s) =
    let rest = version_in s in if eqb (code c) 118 then or_later (whole_number s) rest else rest

unfoldable pub version_of : String → ℕ
unfolding version_in lower
version_of raw_type = elim (version_in (lower raw_type)) [ none ↦ 0 | some n ↦ n ]

abbrev pub Rank : Type 0
Rank = ℕ × ℕ × String × String

-- `rank`, with the version itself for its negative.
unfoldable pub rank : String → Endpoint → Rank
unfolding version_of lower
rank service_type e = (
  (if lower e.raw_service_type == lower service_type then 0 else 1),
  version_of e.raw_service_type,
  e.raw_service_type,
  e.url,
)

-- The order of the ranks: a higher version comes first.
unfoldable pub rank_le : Rank → Rank → Bool
rank_le (a, v, s, u) (b, w, t, x) =
    lexicographic (leb a b) (leb b a)
      (lexicographic (leb w v) (leb v w) (lexicographic (text_le s t) (text_le t s) (text_le u x)))

unfoldable pub ranked_le : String → Endpoint → Endpoint → Bool
unfolding rank rank_le
ranked_le service_type a b = rank_le (rank service_type a) (rank service_type b)

-- `by_service.setdefault(service_type, []).append(endpoint)`
unfoldable pub add_to_group : Endpoint → Dict (List Endpoint) → Dict (List Endpoint)
add_to_group e [] = (e.service_type, e ∷ []) ∷ []
add_to_group e ((service_type, members) ∷ groups) =
    let rest = add_to_group e groups in
    if service_type == e.service_type
    then (service_type, members ++ e ∷ []) ∷ groups
    else (service_type, members) ∷ rest

unfoldable pub grouped : Dict (List Endpoint) → List Endpoint → Dict (List Endpoint)
unfolding add_to_group
grouped groups [] = groups
grouped groups (e ∷ es) = grouped (add_to_group e groups) es

unfoldable pub is_candidate : String → Endpoint → Bool
unfolding is_ignored_endpoint
is_candidate region e =
    e.enabled && (not (is_ignored_endpoint e) && (is_blank region || (e.region == region)))

unfoldable pub no_endpoint : String → String → List Endpoint → Failure
unfolding repr_text join sort distinct text_le
no_endpoint interface service_type members = discovery_error (
    "service "
    <> (repr_text service_type
        <> (" ("
            <> (join ", " (
                  sort text_le (
                    distinct ◌==◌ []
                      (map (λ e. or_text e.service_name e.raw_service_type) members)))
                <> (") has no " <> (repr_text interface <> " endpoint"))))))

abbrev pub first_or : Failure → List Endpoint → Result Failure Endpoint
first_or failure [] = err failure
first_or failure (e ∷ es) = ok e

-- The body of the loop: the best of the service's endpoints at the interface.
unfoldable pub choose : String → String × List Endpoint → Result Failure Endpoint
unfolding ranked_le no_endpoint sort keep
choose interface (service_type, members) =
    first_or (no_endpoint interface service_type members)
      (sort (ranked_le service_type) (keep (λ e. e.interface == interface) members))

abbrev group_le : String × List Endpoint → String × List Endpoint → Bool
group_le (s, a) (t, b) = text_le s t

abbrev in_region : String → String
in_region region = if is_blank region then "" else " in region " <> repr_text region

unfoldable pub choose_all : String → String → List Endpoint → Result Failure (List Endpoint)
unfolding grouped choose sort text_le collect repr_text
choose_all interface region [] = err (
    discovery_error (
      "no enabled OpenStack endpoints match interface "
      <> (repr_text interface <> in_region region)))
choose_all interface region (e ∷ es) =
    collect (map (choose interface) (sort group_le (grouped [] (e ∷ es))))

-- A region of "" is None.
unfoldable pub select_endpoints :
    List Endpoint → (interface region : String) → Result Failure (List Endpoint)
unfolding choose_all is_candidate normalize_interface keep
select_endpoints endpoints interface region =
    choose_all (normalize_interface (string interface)) region
      (keep (is_candidate region) endpoints)
