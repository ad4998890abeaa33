-- ===== src/Base/Dict.antt =====
-- Python's `dict` with text keys, in insertion order.
pub mod Laws
use mathlib.Core.Bool.{Bool, true, false}
use mathlib.Core.Option.{Option, none, some}
use mathlib.Core.List.{List, [], ◌∷◌}
use Prim.Native.String.{String}
use text.Mathlib.Text.{◌==◌}
use yggdrasil_home.Base.Tests.{if◌then◌else◌}

abbrev pub Dict {ℓ} : Type ℓ → Type ℓ
Dict V = List (String × V)

module _ {ℓ} {V : Type ℓ} where
  -- `d.get(k)`
  unfoldable pub get : Dict V → String → Option V
  get [] k = none
  get ((j, v) ∷ d) k = let rest = get d k in if j == k then some v else rest

  abbrev pub or_default : V → Option V → V
  or_default default none = default
  or_default default (some v) = v

  -- `d.get(k, default)`
  unfoldable pub get_or : Dict V → String → V → V
  unfolding get
  get_or d k default = or_default default (get d k)

  -- `k in d`
  unfoldable pub has : Dict V → String → Bool
  unfolding get
  has d k = elim (get d k) [ none ↦ false | some _ ↦ true ]

  -- `d[k] = v`
  unfoldable pub put : Dict V → String → V → Dict V
  put [] k v = (k, v) ∷ []
  put ((j, w) ∷ d) k v = let rest = put d k v in if j == k then (j, v) ∷ d else (j, w) ∷ rest

-- `x in s`, for a set of texts
unfoldable pub member : List String → String → Bool
member [] x = false
member (y ∷ ys) x = let rest = member ys x in if y == x then true else rest
