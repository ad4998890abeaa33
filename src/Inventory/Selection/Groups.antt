-- ===== src/Inventory/Selection/Groups.antt =====
-- The groups of endpoints by service type.
use Prim.Native.String.{String}
use yggdrasil_home.Base.{
  ◌≡◌, refl, sym, false, List, [], ◌∷◌, ◌++◌, ◌==◌, In, here, there, All, AllPairs, All-append,
  In-append_left, In-append_right, Bool-cases, inl, inr, arith, eq_iff,
}
use yggdrasil_home.Base.Dict.{Dict}
use yggdrasil_home.Inventory.Filters.{Endpoint}
use yggdrasil_home.Inventory.Selection.{add_to_group, grouped}

abbrev pub Groups : Type 0
Groups = Dict (List Endpoint)

-- The endpoint stands in the group of its service type.
pub data Has (e : Endpoint) : Groups → Type 0 where
  in_first :
      {members : List Endpoint} {groups : Groups} (service_type : String)
      → service_type ≡ e.service_type
      → In e members
      → Has e ((service_type, members) ∷ groups)
  in_later :
      {group : String × List Endpoint} {groups : Groups} → Has e groups → Has e (group ∷ groups)

add_to_group-Has : (e : Endpoint) (groups : Groups) → Has e (add_to_group e groups)
unfolding add_to_group
add_to_group-Has e [] = in_first e.service_type refl (here refl)
add_to_group-Has e ((k, ms) ∷ groups) = elim (Bool-cases (k == e.service_type)) [
  | inl h ↦
      rw h (in_first k (ground (arith, eq_iff k e.service_type)) (In-append_right ms (here refl)))
  | inr h ↦ rw h (in_later (add_to_group-Has e groups))
]

add_to_group_keeps :
    {x : Endpoint} (e : Endpoint) (groups : Groups) → Has x groups → Has x (add_to_group e groups)
unfolding add_to_group
add_to_group_keeps e [] h = elim h [ ]
add_to_group_keeps e ((k, ms) ∷ groups) (in_first _ h m) = elim (Bool-cases (k == e.service_type)) [
  | inl b ↦ rw b (in_first k h (In-append_left (e ∷ []) m))
  | inr b ↦ rw b (in_first k h m)
]
add_to_group_keeps e ((k, ms) ∷ groups) (in_later h) = elim (Bool-cases (k == e.service_type)) [
  | inl b ↦ rw b (in_later h)
  | inr b ↦ rw b (in_later (add_to_group_keeps e groups h))
]

grouped_keeps :
    {x : Endpoint} (groups : Groups) (es : List Endpoint) → Has x groups → Has x (grouped groups es)
unfolding grouped
grouped_keeps groups [] h = h
grouped_keeps groups (e ∷ es) h =
    grouped_keeps (add_to_group e groups) es (add_to_group_keeps e groups h)

pub grouped-Has :
    {x : Endpoint} (groups : Groups) (es : List Endpoint) → In x es → Has x (grouped groups es)
unfolding grouped
grouped-Has groups [] m = elim m [ ]
grouped-Has groups (e ∷ es) (here h) =
    rw h (grouped_keeps (add_to_group e groups) es (add_to_group-Has e groups))
grouped-Has groups (e ∷ es) (there m) = grouped-Has (add_to_group e groups) es m

-- Every member of a group is of its type and has the property.
abbrev pub MembersAre {κ} : (Endpoint → Type κ) → Groups → Type κ
MembersAre P = All (λ (k, ms). All (λ e. (e.service_type ≡ k) × P e) ms)

module _ {κ} (P : Endpoint → Type κ) where
  add_to_group-MembersAre :
      (e : Endpoint) (groups : Groups)
      → P e
      → MembersAre P groups
      → MembersAre P (add_to_group e groups)
  unfolding add_to_group
  add_to_group-MembersAre e [] p h = (((refl, p), tt), tt)
  add_to_group-MembersAre e ((k, ms) ∷ groups) p h = elim (Bool-cases (k == e.service_type)) [
    | inl b ↦ rw b (
      All-append (λ x. (x.service_type ≡ k) × P x) ms (e ∷ []) h.0
          ((sym (ground (arith, eq_iff k e.service_type)), p), tt),
      h.1,
    )
    | inr b ↦ rw b (h.0, add_to_group-MembersAre e groups p h.1)
  ]

  pub grouped-MembersAre :
      (groups : Groups) (es : List Endpoint)
      → All P es
      → MembersAre P groups
      → MembersAre P (grouped groups es)
  unfolding grouped
  grouped-MembersAre groups [] p h = h
  grouped-MembersAre groups (e ∷ es) p h =
      grouped-MembersAre (add_to_group e groups) es p.1 (add_to_group-MembersAre e groups p.0 h)

abbrev pub TypesDiffer : String × List Endpoint → String × List Endpoint → Type 0
TypesDiffer (a, xs) (b, ys) = (a == b) ≡ false

All-add_to_group :
    (k : String) (ms : List Endpoint) (e : Endpoint) (groups : Groups)
    → (k == e.service_type) ≡ false
    → All (TypesDiffer (k, ms)) groups
    → All (TypesDiffer (k, ms)) (add_to_group e groups)
unfolding add_to_group
All-add_to_group k ms e [] h d = (h, tt)
All-add_to_group k ms e ((j, ns) ∷ groups) h d = elim (Bool-cases (j == e.service_type)) [
  | inl b ↦ rw b d
  | inr b ↦ rw b (d.0, All-add_to_group k ms e groups h d.1)
]

retyped :
    (k : String) (ms ns : List Endpoint) (groups : Groups)
    → All (TypesDiffer (k, ms)) groups
    → All (TypesDiffer (k, ns)) groups
retyped k ms ns [] d = tt
retyped k ms ns (g ∷ groups) d = (d.0, retyped k ms ns groups d.1)

add_to_group-AllPairs :
    (e : Endpoint) (groups : Groups)
    → AllPairs TypesDiffer groups
    → AllPairs TypesDiffer (add_to_group e groups)
unfolding add_to_group
add_to_group-AllPairs e [] d = (tt, tt)
add_to_group-AllPairs e ((k, ms) ∷ groups) d = elim (Bool-cases (k == e.service_type)) [
  | inl b ↦ rw b (retyped k ms (ms ++ e ∷ []) groups d.0, d.1)
  | inr b ↦ rw b (All-add_to_group k ms e groups b d.0, add_to_group-AllPairs e groups d.1)
]

pub grouped-AllPairs :
    (groups : Groups) (es : List Endpoint)
    → AllPairs TypesDiffer groups
    → AllPairs TypesDiffer (grouped groups es)
unfolding grouped
grouped-AllPairs groups [] d = d
grouped-AllPairs groups (e ∷ es) d =
    grouped-AllPairs (add_to_group e groups) es (add_to_group-AllPairs e groups d)

pub TypesDiffer-symmetric : (a b : String × List Endpoint) → TypesDiffer a b → TypesDiffer b a
TypesDiffer-symmetric (a, xs) (b, ys) d = ground (arith, eq_iff a b, eq_iff b a)
