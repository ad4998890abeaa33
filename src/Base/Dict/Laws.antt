-- ===== src/Base/Dict/Laws.antt =====
-- What a lookup finds after an assignment.
use Prim.Native.String.{String}
use mathlib.Core.Path.{◌≡◌, refl, sym, ◌∙◌, ap}
use mathlib.Core.Bool.{Bool, true, false, true≢false}
use mathlib.Core.Logic.{inl, inr}
use mathlib.Core.Option.{some}
use mathlib.Core.List.{[], ◌∷◌}
use native.Mathlib.Omega.{arith}
use text.Mathlib.Text.{◌==◌}
use text.Mathlib.TextEquality.{eq_iff}
use yggdrasil_home.Base.Tests.{if◌then◌else◌, Bool-cases}
use yggdrasil_home.Base.Dict.{Dict, get, get_or, or_default, put}

pub same_text : (i k : String) → (i == k) ≡ true → i ≡ k
same_text i k e = ground (arith, eq_iff i k)

pub same_text_refl : (k : String) → (k == k) ≡ true
same_text_refl k = let h = eq_iff k k in ground (arith, h)

pub differs : (i k j : String) → (i == k) ≡ true → (i == j) ≡ false → (k == j) ≡ false
differs i k j e f = rw (same_text i k e) at f

pub differs_head : (i k j : String) → (i == k) ≡ false → (i == j) ≡ true → (k == j) ≡ false
differs_head i k j e f = elim (Bool-cases (k == j)) [
  | inl g ↦
      let same : (j == k) ≡ true = rw (same_text k j g) (same_text_refl j) in
      let other : (j == k) ≡ false = rw (same_text i j f) at e in
      absurd (true≢false (sym same ∙ other))
  | inr g ↦ g
]

module _ {ℓ} {V : Type ℓ} where
  pub get-put :
      (d : Dict V) (k : String) (v : V) (j : String)
      → get (put d k v) j ≡ (if k == j then some v else get d j)
  unfolding get put
  get-put [] k v j = refl
  get-put ((i, w) ∷ d) k v j = elim (Bool-cases (i == k)) [
    | inl e ↦
        rw (e, same_text i k e) elim (Bool-cases (k == j)) [ inl f ↦ rw f refl | inr f ↦ rw f refl ]
    | inr e ↦ elim (Bool-cases (i == j)) [
      | inl f ↦ rw (e, f, differs_head i k j e f) refl
      | inr f ↦ rw (e, f) (get-put d k v j)
    ]
  ]

  pub get_or-put :
      (d : Dict V) (k : String) (v : V) (j : String) (default : V)
      → get_or (put d k v) j default ≡ (if k == j then v else get_or d j default)
  unfolding get_or
  get_or-put d k v j default = ap (or_default default) (get-put d k v j) ∙ of_test (k == j)
    where
      of_test :
          (b : Bool)
          → or_default default (if b then some v else get d j)
            ≡ (if b then v else get_or d j default)
      of_test true = refl
      of_test false = refl
