-- ===== src/Inventory/Report/Held.antt =====
-- The second loop of `inventory`: what it stores of each provider and what it says of its failures.
use Prim.Native.String.{String}
use yggdrasil_home.Base.{
  ◌≡◌, refl, sym, ap, subst, ◌∙◌, Bool, true, false, some, List, [], ◌∷◌, map, ◌==◌, In, here,
  there, In-append_left, In-append_right, not_In-nil, some_inj, inl, inr, Bool-cases, if◌then◌else◌,
}
use yggdrasil_home.Base.Dict
use yggdrasil_home.Base.Dict.{Dict}
use yggdrasil_home.Base.Dict.Laws.{get-put, same_text, same_text_refl}
use yggdrasil_home.Base.Result.{Result, ok, err, links, ok_inj}
use yggdrasil_home.Base.Json.{Json}
use yggdrasil_home.Inventory.Filters.{Endpoint}
use yggdrasil_home.Inventory.Errors.{Problem}
use yggdrasil_home.Inventory.Records.{Failure}
use yggdrasil_home.Inventory.Report.{
  Collection, Issue, Report, add_collection, collect_all, problem_issue, provider_issue,
  with_collection,
}

unfoldable pub Listed : Dict (Dict (List Json)) → String → Type 0
Listed d key = (v : Dict (List Json)) × (Dict.get d key ≡ some v)

put-Listed :
    (d : Dict (Dict (List Json))) (k : String) (v : Dict (List Json)) → Listed (Dict.put d k v) k
unfolding Listed
put-Listed d k v = (v, get-put d k v k ∙ rw (same_text_refl k) refl)

keep-Listed :
    (d : Dict (Dict (List Json))) (k : String) (v : Dict (List Json)) (j : String)
    → Listed d j
    → Listed (Dict.put d k v) j
unfolding Listed
keep-Listed d k v j (u, e) = elim (Bool-cases (k == j)) [
  | inl f ↦ (v, get-put d k v j ∙ rw f refl)
  | inr f ↦ (u, get-put d k v j ∙ rw f e)
]

-- What a provider gave is the value; nothing if it raised.
abbrev pub IsGiven : Collection → Dict (List Json) → Type 0
IsGiven (ok given, problems) v = v ≡ given
IsGiven (err f, problems) v = v ≡ []

-- What went wrong for a service is among the errors.
abbrev pub HasErrors : Endpoint → Collection → List Issue → Type 0
HasErrors e c errors =
    ((q : Problem) → In q c.1 → In (problem_issue e q) errors)
    × ((f : Failure) → c.0 ≡ err f → In (provider_issue e f) errors)

In-map :
    (e : Endpoint) (q : Problem) (qs : List Problem)
    → In q qs
    → In (problem_issue e q) (map (problem_issue e) qs)
In-map e q [] m = absurd (not_In-nil m)
In-map e q (x ∷ qs) (here k) = here (ap (problem_issue e) k)
In-map e q (x ∷ qs) (there m) = there (In-map e q qs m)

module _ {P : Type 0} (resolve_provider : (keeps : Bool) → Endpoint → Result Failure P)
    (run : P → Collection) where
  -- A report keeps the resources and the errors that it has.
  pub record Grows (a b : Report) : Type 0 where
    pub resources_kept : (key : String) → Listed a.resources key → Listed b.resources key
    pub errors_kept : (issue : Issue) → In issue a.errors → In issue b.errors

  with_collection-Grows :
      (report : Report) (e : Endpoint) (v : Dict (List Json)) (issues : List Issue)
      → Grows report (with_collection resolve_provider run report e v issues)
  with_collection-Grows report e v issues = record {
    resources_kept = λ key l. keep-Listed report.resources e.service_type v key l;
    errors_kept = λ issue m. In-append_left issues m;
  }

  -- A value under a key is what the provider of a service of that type gave.
  abbrev pub Source : List (Endpoint × P) → String → Dict (List Json) → Type 0
  Source providers key v =
      (e : Endpoint) × (p : P) × In (e, p) providers × (e.service_type ≡ key) × IsGiven (run p) v

  abbrev pub AllHeld : List (Endpoint × P) → Report → Type 0
  AllHeld providers report =
      (key : String) (v : Dict (List Json))
      → Dict.get report.resources key ≡ some v
      → Source providers key v

  put-AllHeld :
      (whole : List (Endpoint × P)) (report : Report) (e : Endpoint) (p : P) (v : Dict (List Json))
      (issues : List Issue)
      → In (e, p) whole
      → IsGiven (run p) v
      → AllHeld whole report
      → AllHeld whole (with_collection resolve_provider run report e v issues)
  put-AllHeld whole report e p v issues m g h key u k = elim (Bool-cases (e.service_type == key)) [
    | inl s ↦
        let it : some v ≡ some u =
          ap (λ b. if b then some v else Dict.get report.resources key) (sym s)
          ∙ sym (get-put report.resources e.service_type v key)
          ∙ k in
        (e, p, m, same_text e.service_type key s, subst (IsGiven (run p)) (some_inj it) g)
    | inr s ↦ h key u (
        ap (λ b. if b then some v else Dict.get report.resources key) (sym s)
        ∙ sym (get-put report.resources e.service_type v key)
        ∙ k)
  ]

  -- What the second loop makes of one provider's run.
  abbrev Added : List (Endpoint × P) → Endpoint → (report out : Report) → Collection → Type 0
  Added whole e report out c =
      Grows report out
      × Listed out.resources e.service_type
      × HasErrors e c out.errors
      × (AllHeld whole report → AllHeld whole out)

  add_collection-Added :
      (whole : List (Endpoint × P)) (strict : Bool) (e : Endpoint) (p : P) (report out : Report)
      (c : Collection)
      → In (e, p) whole
      → run p ≡ c
      → add_collection resolve_provider run strict e report c ≡ ok out
      → Added whole e report out c
  add_collection-Added whole strict e p report out (ok v, problems) i r h =
      let issues = map (problem_issue e) problems in
      subst (λ x. Added whole e report x (ok v, problems)) (ok_inj h)
        (
          with_collection-Grows report e v issues,
          put-Listed report.resources e.service_type v,
          (λ q m. In-append_right report.errors (In-map e q problems m), λ f k. cc k),
          put-AllHeld whole report e p v issues i (subst (λ x. IsGiven x v) (sym r) refl),
        )
  add_collection-Added whole true e p report out (err f, problems) i r h = cc h
  add_collection-Added whole false e p report out (err f, problems) i r h =
      let issues = provider_issue e f ∷ map (problem_issue e) problems in
      subst (λ x. Added whole e report x (err f, problems)) (ok_inj h)
        (
          with_collection-Grows report e [] issues,
          put-Listed report.resources e.service_type [],
          (
            λ q m. In-append_right report.errors (there (In-map e q problems m)),
            λ g k. In-append_right report.errors (here (cc k)),
          ),
          put-AllHeld whole report e p [] issues i (subst (λ x. IsGiven x []) (sym r) refl),
        )

  HasErrors-grow :
      (e : Endpoint) (c : Collection) (a b : Report)
      → Grows a b
      → HasErrors e c a.errors
      → HasErrors e c b.errors
  HasErrors-grow e c a b g h = (
    λ q m. g.errors_kept (problem_issue e q) (h.0 q m),
    λ f k. g.errors_kept (provider_issue e f) (h.1 f k),
  )

  abbrev pub Reported : Endpoint → P → Report → Type 0
  Reported e p report = Listed report.resources e.service_type × HasErrors e (run p) report.errors

  pub collect-Grows :
      (whole : List (Endpoint × P)) (strict : Bool) (providers : List (Endpoint × P))
      (report out : Report)
      → ((e : Endpoint) (p : P) → In (e, p) providers → In (e, p) whole)
      → collect_all resolve_provider run strict providers report ≡ ok out
      → Grows report out
        × ((e : Endpoint) (p : P) → In (e, p) providers → Reported e p out)
        × (AllHeld whole report → AllHeld whole out)
  unfolding collect_all
  collect-Grows whole strict [] report out i h =
      subst
        (λ x.
          Grows report x
          × ((e : Endpoint) (p : P) → In {A = Endpoint × P} (e, p) [] → Reported e p x)
          × (AllHeld whole report → AllHeld whole x))
        (ok_inj h)
        (
          record { resources_kept = λ key l. l; errors_kept = λ issue m. m },
          λ e p m. absurd (not_In-nil m),
          λ held. held,
        )
  collect-Grows whole strict ((e, p) ∷ providers) report out i h =
      let (mid, l, m) =
        links (add_collection resolve_provider run strict e report (run p))
          (collect_all resolve_provider run strict providers) h in
      let (first, listed, errors, held) =
        add_collection-Added whole strict e p report mid (run p) (i e p (here refl)) refl l in
      let (later, all, keeps) =
        collect-Grows whole strict providers mid out (λ f q n. i f q (there n)) m in
      (
        record {
          resources_kept = λ key k. later.resources_kept key (first.resources_kept key k);
          errors_kept = λ issue k. later.errors_kept issue (first.errors_kept issue k);
        },
        λ f q n. elim n [
          | here same ↦
              subst (λ x. Reported x.0 x.1 out) (sym same)
                (
                  later.resources_kept e.service_type listed,
                  HasErrors-grow e (run p) mid out later errors,
                )
          | there k ↦ all f q k
        ],
        λ start. keeps (held start),
      )
