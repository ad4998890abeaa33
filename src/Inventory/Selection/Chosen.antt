-- ===== src/Inventory/Selection/Chosen.antt =====
-- The selected endpoints against those that are offered.
use Prim.Native.String.{String}
use yggdrasil_home.Base.{
  ◌≡◌, refl, sym, subst, ◌∙◌, Bool, true, false, List, [], ◌∷◌, ◌==◌, In, here, there, All,
  AllPairs, All-In, All-of_In, AllPairs-with, In_keep, In-keep, keep,
}
use yggdrasil_home.Base.Sorting.{sort, IsSorted, In-sort, In_sort, sort-IsSorted, sort-AllPairs}
use yggdrasil_home.Base.Result.{ok, Each, collect-Each, Each-from, Each-to, Each-AllPairs, ok_inj}
use yggdrasil_home.Base.Json.{string}
use yggdrasil_home.Inventory.Filters.{Endpoint, normalize_interface}
use yggdrasil_home.Inventory.Records.{Failure}
use yggdrasil_home.Inventory.Selection.{
  first_or, choose, choose_all, is_candidate, group_le, grouped, no_endpoint, ranked_le,
  select_endpoints,
}
use yggdrasil_home.Inventory.Selection.Order.{ranked_le-total, ranked_le_trans}
use yggdrasil_home.Inventory.Selection.Groups.{
  Groups, Has, in_first, in_later, grouped-Has, MembersAre, grouped-MembersAre, TypesDiffer,
  grouped-AllPairs, TypesDiffer-symmetric,
}

-- The best of a service's endpoints at an interface.
pub record IsBest (interface service_type : String) (members : List Endpoint) (s : Endpoint)
    : Type 0 where
  pub member : In s members
  pub at_interface : (s.interface == interface) ≡ true
  pub least :
      (e : Endpoint)
      → In e members
      → (e.interface == interface) ≡ true
      → ranked_le service_type s e ≡ true

ranked_le_refl : (k : String) (e : Endpoint) → ranked_le k e e ≡ true
ranked_le_refl k e = at (ranked_le k e e) refl
  where
    at : (b : Bool) → ranked_le k e e ≡ b → b ≡ true
    at true h = refl
    at false h = sym h ∙ ranked_le-total k e e h

-- The first of a sorted list is at most every element.
head_least :
    (k : String) (failure : Failure) (xs : List Endpoint) (s : Endpoint)
    → first_or failure xs ≡ ok s
    → IsSorted (ranked_le k) xs
    → In s xs × ((e : Endpoint) → In e xs → ranked_le k s e ≡ true)
head_least k failure [] s h sorted = cc h
head_least k failure (x ∷ xs) s h sorted = (
  here (sym (ok_inj h)),
  subst (λ y. (e : Endpoint) → In e (x ∷ xs) → ranked_le k y e ≡ true) (ok_inj h) below,
)
  where
    below : (e : Endpoint) → In e (x ∷ xs) → ranked_le k x e ≡ true
    below e (here q) = rw q (ranked_le_refl k x)
    below e (there m) = All-In (λ y. ranked_le k x y ≡ true) sorted.0 m

choose-IsBest :
    (interface k : String) (members : List Endpoint) (s : Endpoint)
    → choose interface (k, members) ≡ ok s
    → IsBest interface k members s
unfolding choose
choose-IsBest interface k members s h =
    let kept = keep (λ e. e.interface == interface) members in
    let (m, least) =
      head_least k (no_endpoint interface k members) (sort (ranked_le k) kept) s h
        (sort-IsSorted (ranked_le k) (ranked_le-total k) (ranked_le_trans k) kept) in
    let (n, q) = In_keep (λ e. e.interface == interface) members (In_sort (ranked_le k) kept m) in
    record {
      member = n;
      at_interface = q;
      least = λ e l r.
          least e (In-sort (ranked_le k) kept (In-keep (λ x. x.interface == interface) l r));
    }

-- No two of the selected endpoints are of one service type.
abbrev pub ServicesDiffer : Endpoint → Endpoint → Type 0
ServicesDiffer a b = (a.service_type == b.service_type) ≡ false

-- Every selected endpoint is a candidate at the interface, every candidate's service has one that is
-- selected, and that one is at most every candidate of the service at the interface.
pub record IsSelection (interface region : String) (endpoints selected : List Endpoint)
    : Type 0 where
  pub sound :
      (s : Endpoint)
      → In s selected
      → In s endpoints × (is_candidate region s ≡ true) × ((s.interface == interface) ≡ true)
  pub complete :
      (e : Endpoint)
      → In e endpoints
      → is_candidate region e ≡ true
      → (s : Endpoint) × In s selected
        × (s.service_type ≡ e.service_type)
        × ((e.interface == interface) ≡ true → ranked_le e.service_type s e ≡ true)
  pub one_each : AllPairs ServicesDiffer selected

Has-group :
    {e : Endpoint} (groups : Groups)
    → Has e groups
    → (k : String) × (ms : List Endpoint) × In (k, ms) groups × (k ≡ e.service_type) × In e ms
Has-group [] h = elim h [ ]
Has-group ((k, ms) ∷ groups) (in_first _ p m) = (k, ms, here refl, p, m)
Has-group (g ∷ groups) (in_later h) =
    let (k, ms, n, p, m) = Has-group groups h in (k, ms, there n, p, m)

module _ (interface region : String) (e : Endpoint) (es : List Endpoint) where
  abbrev groups : Groups
  groups = grouped [] (e ∷ es)

  members : MembersAre (λ x. In x (e ∷ es)) groups
  members =
      grouped-MembersAre (λ x. In x (e ∷ es)) [] (e ∷ es)
        (All-of_In (λ x. In x (e ∷ es)) (e ∷ es) (λ x m. m)) tt

  of_group :
      (k : String) (ms : List Endpoint)
      → In (k, ms) groups
      → (x : Endpoint) → In x ms
      → (x.service_type ≡ k) × In x (e ∷ es)
  of_group k ms m x n =
      All-In (λ y. (y.service_type ≡ k) × In y (e ∷ es))
        (All-In (λ (j, xs). All (λ y. (y.service_type ≡ j) × In y (e ∷ es)) xs) members m) n

  Typed : String × List Endpoint → Type 0
  Typed (k, ms) = (x : Endpoint) → In x ms → x.service_type ≡ k

  carries :
      (g h : String × List Endpoint) (a b : Endpoint)
      → choose interface g ≡ ok a
      → choose interface h ≡ ok b
      → TypesDiffer g h × Typed g × Typed h
      → ServicesDiffer a b
  unfolding Typed
  carries (k, ms) (j, ns) a b p q (d, t, u) =
      rw
        (
          t a (choose-IsBest interface k ms a p).member,
          u b (choose-IsBest interface j ns b q).member,
        )
        d

  selection :
      (selected : List Endpoint)
      → Each (choose interface) (sort group_le groups) selected
      → All (λ x. is_candidate region x ≡ true) (e ∷ es)
      → IsSelection interface region (e ∷ es) selected
  unfolding Typed
  selection selected each candidates = record {
    sound = λ s m.
        let ((k, ms), n, p) = Each-from (choose interface) each m in
        let best = choose-IsBest interface k ms s p in
        let (t, l) = of_group k ms (In_sort group_le groups n) s best.member in
        (l, All-In (λ x. is_candidate region x ≡ true) candidates l, best.at_interface);
    complete = λ x m c.
        let (k, ms, n, p, l) = Has-group groups (grouped-Has [] (e ∷ es) m) in
        let (s, j, q) = Each-to (choose interface) each (In-sort group_le groups n) in
        let best = choose-IsBest interface k ms s q in
        let (t, _) = of_group k ms n s best.member in
        (s, j, t ∙ p, λ r. subst (λ y. ranked_le y s x ≡ true) p (best.least x l r));
    one_each =
        Each-AllPairs (choose interface) (λ g h. TypesDiffer g h × Typed g × Typed h) ServicesDiffer
          carries each
          (AllPairs-with TypesDiffer Typed (sort group_le groups)
            (sort-AllPairs group_le TypesDiffer-symmetric groups (grouped-AllPairs [] (e ∷ es) tt))
            (All-of_In Typed (sort group_le groups)
              (λ (k, ms) n x m. (of_group k ms (In_sort group_le groups n) x m).0)));
  }

choose_all-IsSelection :
    (interface region : String) (candidates selected : List Endpoint)
    → choose_all interface region candidates ≡ ok selected
    → All (λ x. is_candidate region x ≡ true) candidates
    → IsSelection interface region candidates selected
unfolding choose_all
choose_all-IsSelection interface region [] selected h c = cc h
choose_all-IsSelection interface region (e ∷ es) selected h c =
    selection interface region e es selected
      (collect-Each (choose interface) (sort group_le (grouped [] (e ∷ es))) selected h) c

-- A selection that succeeds has only enabled endpoints that are not ignored, of the region if one is
-- asked for and at the interface; it has one for the service type of every such endpoint of the
-- region, of least rank among those at the interface, and no two of one service type.
pub select_endpoints-IsSelection :
    (endpoints selected : List Endpoint) (interface region : String)
    → select_endpoints endpoints interface region ≡ ok selected
    → IsSelection (normalize_interface (string interface)) region endpoints selected
unfolding select_endpoints
select_endpoints-IsSelection endpoints selected interface region h =
    let kept = keep (is_candidate region) endpoints in
    let s = choose_all-IsSelection (normalize_interface (string interface)) region kept selected h (
      All-of_In (λ x. is_candidate region x ≡ true) kept
        (λ x m. (In_keep (is_candidate region) endpoints m).1)) in
    record {
      sound = λ x m.
          let (n, c, i) = s.sound x m in ((In_keep (is_candidate region) endpoints n).0, c, i);
      complete = λ x m c. s.complete x (In-keep (is_candidate region) m c) c;
      one_each = s.one_each;
    }
