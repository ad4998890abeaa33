-- ===== src/Inventory/Report/Complete.antt =====
-- What a report says of each service that is not ignored, and where its resources come from.
use Prim.Native.String.{String}
use yggdrasil_home.Base.{
  ◌≡◌, refl, Bool, true, false, not, ◌&&◌, some, List, [], is_empty, keep, In, In-keep, In_keep,
  inl, inr, Bool-cases,
}
use yggdrasil_home.Base.Dict
use yggdrasil_home.Base.Dict.{Dict}
use yggdrasil_home.Base.Result.{Result, ok, err, links}
use yggdrasil_home.Base.Json.{Json}
use yggdrasil_home.Inventory.Filters.{Endpoint, is_ignored_endpoint}
use yggdrasil_home.Inventory.Records.{Failure}
use yggdrasil_home.Inventory.Report.{
  Collection, Issue, Report, client_issue, inventory, keeps_connection, preflight, resolve_all,
}
use yggdrasil_home.Inventory.Report.Found.{
  Accounted, AllAccounted, IsResolved, resolve_all-AllAccounted,
}
use yggdrasil_home.Inventory.Report.Held.{
  AllHeld, HasErrors, IsGiven, Listed, Reported, Source, collect-Grows,
}

module _ {P : Type 0} (resolve_provider : (keeps : Bool) → Endpoint → Result Failure P)
    (run : P → Collection) (endpoints : List Endpoint) (report : Report) where
  -- The provider of one of the services, which is not ignored, gave the value; or it raised, and the
  -- value is empty.
  pub record IsFrom (key : String) (v : Dict (List Json)) : Type 0 where
    pub endpoint : Endpoint
    pub provider : P
    pub listed : In endpoint endpoints
    pub is_shown : is_ignored_endpoint endpoint ≡ false
    pub resolved : IsResolved resolve_provider run endpoint provider
    pub of_type : endpoint.service_type ≡ key
    pub given : IsGiven (run provider) v

  -- What the report says of a service: that it has no client, and why; or its resources, with each
  -- problem of its provider and what the provider raised.
  pub data IsReported (e : Endpoint) : Type 0 where
    no_client :
        (f : Failure)
        → resolve_provider (keeps_connection e) e ≡ err f
        → In (client_issue e f) report.errors
        → IsReported e
    collected :
        (p : P) (v : Dict (List Json))
        → IsResolved resolve_provider run e p
        → Dict.get report.resources e.service_type ≡ some v
        → IsFrom e.service_type v
        → HasErrors e (run p) report.errors
        → IsReported e

module _ {P : Type 0} (resolve_provider : (keeps : Bool) → Endpoint → Result Failure P)
    (run : P → Collection) where
  IsFrom-Source :
      (endpoints : List Endpoint) (report : Report) (found : List (Endpoint × P) × List Issue)
      → AllAccounted resolve_provider run
          (keep (λ endpoint. not (is_ignored_endpoint endpoint)) endpoints)
          found
      → (key : String) (v : Dict (List Json)) → Source resolve_provider run found.0 key v
      → IsFrom resolve_provider run endpoints report key v
  unfolding AllAccounted
  IsFrom-Source endpoints report found accounted key v (e, p, m, of_type, given) =
      let (kept, resolved) = accounted.1 e p m in
      let (listed, shown) =
        In_keep (λ endpoint. not (is_ignored_endpoint endpoint)) endpoints kept in
      record {
        endpoint = e;
        provider = p;
        listed = listed;
        is_shown = of_not (is_ignored_endpoint e) shown;
        resolved = resolved;
        of_type = of_type;
        given = given;
      }
    where
      of_not : (b : Bool) → not b ≡ true → b ≡ false
      of_not true h = cc h
      of_not false h = refl

  reported_of :
      (endpoints : List Endpoint) (report : Report) (found : List (Endpoint × P) × List Issue)
      → AllAccounted resolve_provider run
          (keep (λ endpoint. not (is_ignored_endpoint endpoint)) endpoints)
          found
      → AllHeld resolve_provider run found.0 report
      → ((issue : Issue) → In issue found.1 → In issue report.errors)
      → ((e : Endpoint) (p : P) → In (e, p) found.0 → Reported resolve_provider run e p report)
      → (e : Endpoint) → Accounted resolve_provider run e found
      → IsReported resolve_provider run endpoints report e
  unfolding Accounted Listed
  reported_of endpoints report found all held errors reported e accounted = elim accounted [
    | inl (p, m, resolved) ↦
        let ((v, stored), problems) = reported e p m in
        collected p v resolved stored
          (IsFrom-Source endpoints report found all e.service_type v (held e.service_type v stored))
          problems
    | inr (f, unresolved, m) ↦ no_client f unresolved (errors (client_issue e f) m)
  ]

  nothing-AllHeld :
      (es : List Endpoint) (issues : List Issue) (providers : List (Endpoint × P))
      → AllHeld resolve_provider run providers
          (record { endpoints = es; resources = []; errors = issues })
  unfolding Dict.get
  nothing-AllHeld es issues providers key v x = cc x

  -- A report that is made has an entry for every service that is not ignored: an error with the
  -- failure to find its client, or resources under its type, with an error for each problem that its
  -- provider met and for what the provider raised. Those resources are what the provider of a service
  -- of that type gave, none where it raised.
  pub inventory_complete :
      (strict : Bool) (endpoints : List Endpoint) (report : Report)
      → inventory resolve_provider run strict endpoints ≡ ok report
      → (e : Endpoint) → In e endpoints
      → is_ignored_endpoint e ≡ false
      → IsReported resolve_provider run endpoints report e
  unfolding inventory AllAccounted
  inventory_complete strict endpoints report h e m i =
      let test : Endpoint → Bool = λ endpoint. not (is_ignored_endpoint endpoint) in
      let kept = keep test endpoints in
      let ((providers, errors), l, k) =
        links (resolve_all resolve_provider run kept) (preflight resolve_provider run strict kept)
          h in
      let accounted = resolve_all-AllAccounted resolve_provider run kept (providers, errors) l in
      elim (Bool-cases (strict && not (is_empty errors))) [
        | inl s ↦ cc (rw s at k)
        | inr s ↦
            let (grows, reported, held) =
              collect-Grows resolve_provider run providers strict providers
                (record { endpoints = kept; resources = []; errors = errors }) report (λ f p n. n)
                (rw s at k) in
            reported_of endpoints report (providers, errors) accounted
              (held (nothing-AllHeld kept errors providers)) grows.errors_kept reported e
              (accounted.0 e (In-keep test m (rw i refl)))
      ]
