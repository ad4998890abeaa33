-- ===== src/Base/Fields.antt =====
-- The mapping of a JSON object: lookup, assignment and removal, and what a lookup then finds.
use Prim.Native.String.{String}
use mathlib.Core.Path.{◌≡◌, refl}
use mathlib.Core.Logic.{inl, inr}
use mathlib.Core.Option.{Option, none, some}
use text.Mathlib.Text.{◌==◌}
use yggdrasil_home.Base.Tests.{if◌then◌else◌, Bool-cases}
use yggdrasil_home.Base.Dict.Laws.{same_text, differs_head}
use yggdrasil_home.Base.Json.{Json, Fields, end, field}

-- `d.get(k)`, which tells a missing key from None
unfoldable pub get_field : Fields → String → Option Json
get_field end k = none
get_field (field j v rest) k = let others = get_field rest k in if j == k then some v else others

-- `d[k] = v`
unfoldable pub set_field : String → Json → Fields → Fields
set_field k v end = field k v end
set_field k v (field j u rest) =
    let others = set_field k v rest in if j == k then field j v rest else field j u others

-- `d.pop(k, None)`
unfoldable pub pop_field : String → Fields → Fields
pop_field k end = end
pop_field k (field j v rest) =
    let others = pop_field k rest in if j == k then others else field j v others

pub get-set_field :
    (k : String) (v : Json) (fs : Fields) (j : String)
    → get_field (set_field k v fs) j ≡ (if k == j then some v else get_field fs j)
unfolding get_field set_field
get-set_field k v end j = refl
get-set_field k v (field i u rest) j = elim (Bool-cases (i == k)) [
  | inl e ↦
      rw (e, same_text i k e) elim (Bool-cases (k == j)) [ inl f ↦ rw f refl | inr f ↦ rw f refl ]
  | inr e ↦ elim (Bool-cases (i == j)) [
    | inl f ↦ rw (e, f, differs_head i k j e f) refl
    | inr f ↦ rw (e, f) (get-set_field k v rest j)
  ]
]

pub get-pop_field :
    (k : String) (fs : Fields) (j : String)
    → get_field (pop_field k fs) j ≡ (if k == j then none else get_field fs j)
unfolding get_field pop_field
get-pop_field k end j = elim (Bool-cases (k == j)) [ inl f ↦ rw f refl | inr f ↦ rw f refl ]
get-pop_field k (field i u rest) j = elim (Bool-cases (i == k)) [
  | inl e ↦
      rw (e, get-pop_field k rest j)
        elim (Bool-cases (k == j)) [ inl f ↦ rw f refl | inr f ↦ rw (f, same_text i k e, f) refl ]
  | inr e ↦ elim (Bool-cases (i == j)) [
    | inl f ↦ rw (e, f, differs_head i k j e f) refl
    | inr f ↦ rw (e, f) (get-pop_field k rest j)
  ]
]
