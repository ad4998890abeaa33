-- ===== src/Inventory/Report/Found.antt =====
-- The first loop of `inventory`: the providers and the services without one.
use yggdrasil_home.Base.{
  ◌≡◌, refl, sym, ap, subst, Bool, List, [], ◌∷◌, In, here, there, not_In-nil, ◌⊎◌, inl, inr,
}
use yggdrasil_home.Base.Result.{Result, ok, err, ◌>>=◌, links, ok_inj}
use yggdrasil_home.Inventory.Filters.{Endpoint}
use yggdrasil_home.Inventory.Records.{
  Failure, service_api_error, unsupported_client_error, discovery_error, inventory_error,
  other_error,
}
use yggdrasil_home.Inventory.Report.{
  Collection, Issue, add_found, add_issue, client_issue, keeps_connection, resolve_all,
  with_provider,
}

module _ {P : Type 0} (resolve_provider : (keeps : Bool) → Endpoint → Result Failure P)
    (run : P → Collection) where
  abbrev pub IsResolved : Endpoint → P → Type 0
  IsResolved e p = resolve_provider (keeps_connection e) e ≡ ok p

  -- A service has the provider that is found for it, or the failure to find one.
  unfoldable pub Accounted : Endpoint → List (Endpoint × P) × List Issue → Type 0
  Accounted e (providers, errors) =
      ((p : P) × In (e, p) providers × IsResolved e p)
      ⊎ ((f : Failure) × (resolve_provider (keeps_connection e) e ≡ err f)
          × In (client_issue e f) errors)

  -- Each of the services is accounted for, and every provider is that of one of them.
  unfoldable pub AllAccounted : List Endpoint → List (Endpoint × P) × List Issue → Type 0
  unfolding Accounted
  AllAccounted endpoints found =
      ((e : Endpoint) → In e endpoints → Accounted e found)
      × ((e : Endpoint) (p : P) → In (e, p) found.0 → In e endpoints × IsResolved e p)

  provider_added :
      (e : Endpoint) (es : List Endpoint) (p : P) (found : List (Endpoint × P) × List Issue)
      → IsResolved e p
      → AllAccounted es found
      → AllAccounted (e ∷ es) (add_found resolve_provider run e p found)
  unfolding Accounted AllAccounted
  provider_added e es p (providers, errors) r h = (accounted, sound)
    where
      accounted : (f : Endpoint) → In f (e ∷ es) → Accounted f ((e, p) ∷ providers, errors)
      accounted f (here same) =
          inl (p, here (ap (λ x. (x, p)) same), subst (λ x. IsResolved x p) (sym same) r)
      accounted f (there m) = elim (h.0 f m) [ inl (q, n, s) ↦ inl (q, there n, s) | inr x ↦ inr x ]

      sound :
          (f : Endpoint) (q : P) → In (f, q) ((e, p) ∷ providers) → In f (e ∷ es) × IsResolved f q
      sound f q (here same) =
          (here (ap (λ x. x.0) same), subst (λ x. IsResolved x.0 x.1) (sym same) r)
      sound f q (there m) = let (n, s) = h.1 f q m in (there n, s)

  issue_added :
      (e : Endpoint) (es : List Endpoint) (x : Failure) (found : List (Endpoint × P) × List Issue)
      → resolve_provider (keeps_connection e) e ≡ err x
      → AllAccounted es found
      → AllAccounted (e ∷ es) (add_issue resolve_provider run e x found)
  unfolding Accounted AllAccounted
  issue_added e es x (providers, errors) r h = (accounted, sound)
    where
      accounted :
          (f : Endpoint) → In f (e ∷ es) → Accounted f (providers, client_issue e x ∷ errors)
      accounted f (here same) = inr (
        x,
        subst (λ y. resolve_provider (keeps_connection y) y ≡ err x) (sym same) r,
        here (ap (λ y. client_issue y x) same),
      )
      accounted f (there m) = elim (h.0 f m) [ inl q ↦ inl q | inr (y, s, n) ↦ inr (y, s, there n) ]

      sound : (f : Endpoint) (q : P) → In (f, q) providers → In f (e ∷ es) × IsResolved f q
      sound f q m = let (n, s) = h.1 f q m in (there n, s)

  failure-Accounted :
      (e : Endpoint) (es : List Endpoint) (x : Failure)
      (rest : Result Failure (List (Endpoint × P) × List Issue))
      (found : List (Endpoint × P) × List Issue)
      → resolve_provider (keeps_connection e) e ≡ err x
      → ((later : List (Endpoint × P) × List Issue) → rest ≡ ok later → AllAccounted es later)
      → (rest >>= λ later. ok (add_issue resolve_provider run e x later)) ≡ ok found
      → AllAccounted (e ∷ es) found
  failure-Accounted e es x rest found r ih h =
      let (later, l, m) = links rest (λ later. ok (add_issue resolve_provider run e x later)) h in
      subst (AllAccounted (e ∷ es)) (ok_inj m) (issue_added e es x later r (ih later l))

  resolved-Accounted :
      (e : Endpoint) (es : List Endpoint) (r : Result Failure P)
      (rest : Result Failure (List (Endpoint × P) × List Issue))
      (found : List (Endpoint × P) × List Issue)
      → resolve_provider (keeps_connection e) e ≡ r
      → ((later : List (Endpoint × P) × List Issue) → rest ≡ ok later → AllAccounted es later)
      → with_provider resolve_provider run e r rest ≡ ok found
      → AllAccounted (e ∷ es) found
  resolved-Accounted e es (ok p) rest found r ih h =
      let (later, l, m) = links rest (λ later. ok (add_found resolve_provider run e p later)) h in
      subst (AllAccounted (e ∷ es)) (ok_inj m) (provider_added e es p later r (ih later l))
  resolved-Accounted e es (err (other_error s)) rest found r ih h = cc h
  resolved-Accounted e es (err (service_api_error s)) rest found r ih h =
      failure-Accounted e es (service_api_error s) rest found r ih h
  resolved-Accounted e es (err (unsupported_client_error s)) rest found r ih h =
      failure-Accounted e es (unsupported_client_error s) rest found r ih h
  resolved-Accounted e es (err (discovery_error s)) rest found r ih h =
      failure-Accounted e es (discovery_error s) rest found r ih h
  resolved-Accounted e es (err (inventory_error s)) rest found r ih h =
      failure-Accounted e es (inventory_error s) rest found r ih h

  pub resolve_all-AllAccounted :
      (endpoints : List Endpoint) (found : List (Endpoint × P) × List Issue)
      → resolve_all resolve_provider run endpoints ≡ ok found
      → AllAccounted endpoints found
  unfolding resolve_all AllAccounted
  resolve_all-AllAccounted [] found h =
      subst (AllAccounted []) (ok_inj h)
        (λ e m. absurd (not_In-nil m), λ e p m. absurd (not_In-nil m))
  resolve_all-AllAccounted (e ∷ es) found h =
      resolved-Accounted e es (resolve_provider (keeps_connection e) e)
        (resolve_all resolve_provider run es) found refl (resolve_all-AllAccounted es) h
