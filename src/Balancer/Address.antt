-- ===== src/Balancer/Address.antt =====
-- Which of a capsule's addresses is that of a subnet.
use Prim.Native.String.{String}
use yggdrasil_home.Base.{
  ◌≡◌, refl, sym, ap, ◌∙◌, Option, none, some, List, [], ◌∷◌, ◌++◌, first_where, inl, inr,
  Bool-cases,
}
use yggdrasil_home.Base.Json.{
  Json, null, flag, number, string, array, object, Items, nil, cons, Fields, end, field, get_json,
}
use yggdrasil_home.Balancer.{
  address_among, address_for_subnet, address_in, matches_subnet, or_found,
}

-- The addresses in the lists of a mapping, in the order in which they stand there.
abbrev pub mappings_of : Items → List Fields
mappings_of nil = []
mappings_of (cons (object address) rest) = address ∷ mappings_of rest
mappings_of (cons other rest) = mappings_of rest

abbrev pub addresses_of : Fields → List Fields
addresses_of end = []
addresses_of (field key (array addresses) rest) = mappings_of addresses ++ addresses_of rest
addresses_of (field key other rest) = addresses_of rest

abbrev pub addr_of : Option Fields → Option Json
addr_of none = none
addr_of (some address) = some (get_json address "addr")

module _ (subnet_id ip_version : String) where
  abbrev pub first_on_subnet : List Fields → Option Json
  first_on_subnet addresses = addr_of (first_where (matches_subnet subnet_id ip_version) addresses)

  first-append :
      (xs ys : List Fields)
      → first_on_subnet (xs ++ ys) ≡ or_found (first_on_subnet xs) (first_on_subnet ys)
  unfolding first_where
  first-append [] ys = refl
  first-append (x ∷ xs) ys = elim (Bool-cases (matches_subnet subnet_id ip_version x)) [
    | inl e ↦ rw e refl
    | inr e ↦ rw e (first-append xs ys)
  ]

  among_first :
      (items : Items)
      → address_among subnet_id ip_version items ≡ first_on_subnet (mappings_of items)
  unfolding address_among first_where
  among_first nil = refl
  among_first (cons (object address) rest) =
      elim (Bool-cases (matches_subnet subnet_id ip_version address)) [
        | inl e ↦ rw e refl
        | inr e ↦ rw e (among_first rest)
      ]
  among_first (cons null rest) = among_first rest
  among_first (cons (flag b) rest) = among_first rest
  among_first (cons (number n) rest) = among_first rest
  among_first (cons (string s) rest) = among_first rest
  among_first (cons (array xs) rest) = among_first rest

  in_first : (fs : Fields) → address_in subnet_id ip_version fs ≡ first_on_subnet (addresses_of fs)
  unfolding address_in first_where
  in_first end = refl
  in_first (field key (array addresses) rest) =
      ap (λ o. or_found o (address_in subnet_id ip_version rest)) (among_first addresses)
      ∙ ap (or_found (first_on_subnet (mappings_of addresses))) (in_first rest)
      ∙ sym (first-append (mappings_of addresses) (addresses_of rest))
  in_first (field key null rest) = in_first rest
  in_first (field key (flag b) rest) = in_first rest
  in_first (field key (number n) rest) = in_first rest
  in_first (field key (string s) rest) = in_first rest
  in_first (field key (object fs) rest) = in_first rest

  -- The nested search finds the first address on the subnet among all that stand in the lists of the
  -- mapping, whatever else stands there.
  pub address_for_subnet_first :
      (addresses : Fields)
      → address_for_subnet (object addresses) subnet_id ip_version
        ≡ first_on_subnet (addresses_of addresses)
  unfolding address_for_subnet
  address_for_subnet_first addresses = in_first addresses
