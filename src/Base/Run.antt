-- ===== src/Base/Run.antt =====
-- Code with effects: it reads what happened before and returns, raises, or is unfinished when the
-- fuel of one of its loops is used up.
use mathlib.Core.Path.{◌≡◌, refl, ap, ◌∙◌}
use mathlib.Core.Logic.{◌≢◌, ◌⊎◌, inl, inr}
use mathlib.Core.Option.{Option, none, some}
use mathlib.Core.List.{List}

pub data Outcome (E A : Type 0) : Type 0 where
  returned : A → Outcome E A
  raised : E → Outcome E A
  unfinished : Outcome E A

-- A run of code, by the events before it, the latest first.
abbrev pub Run : (V E A : Type 0) → Type 0
Run V E A = List V → Outcome E A × List V

module _ {V E A : Type 0} where
  abbrev pub pure : A → Run V E A
  pure a h = (returned a, h)

  abbrev pub raise : E → Run V E A
  raise e h = (raised e, h)

  abbrev pub out_of_fuel : Run V E A
  out_of_fuel h = (unfinished, h)

  -- `try: … except Exception as error: …`
  abbrev pub handled : Outcome E A → (E → Run V E A) → Run V E A
  handled (returned a) handler = pure a
  handled (raised e) handler = handler e
  handled unfinished handler = out_of_fuel

  abbrev pub rescue : Run V E A → (E → Run V E A) → Run V E A
  rescue m handler h = let (r, later) = m h in handled r handler later

  abbrev pub or_raise : Option E → A → Run V E A
  or_raise none a = pure a
  or_raise (some e) a = raise e

infixl 5 ◌>>=◌ ◌>>◌
module _ {V E A B : Type 0} where
  abbrev pub and_then : Outcome E A → (A → Run V E B) → Run V E B
  and_then (returned a) next = next a
  and_then (raised e) next = raise e
  and_then unfinished next = out_of_fuel

  abbrev pub ◌>>=◌ : Run V E A → (A → Run V E B) → Run V E B
  ◌>>=◌ m next h = let (r, later) = m h in and_then r next later

  abbrev pub ◌>>◌ : Run V E A → Run V E B → Run V E B
  ◌>>◌ m rest = ◌>>=◌ m (λ _. rest)

  -- A run that returns has returned at each of its parts.
  pub >>=-parts :
      (m : Run V E A) (next : A → Run V E B) (h : List V) {b : B} {end : List V}
      → ◌>>=◌ m next h ≡ (returned b, end)
      → (a : A) × (mid : List V) × (m h ≡ (returned a, mid)) × (next a mid ≡ (returned b, end))
  >>=-parts m next h {b = b} {end = end} e = by_first (m h) refl e
    where
      by_first :
          (first : Outcome E A × List V)
          → m h ≡ first
          → and_then first.0 next first.1 ≡ (returned b, end)
          → (a : A) × (mid : List V) × (m h ≡ (returned a, mid)) × (next a mid ≡ (returned b, end))
      by_first (returned a, mid) k l = (a, mid, k, l)
      by_first (raised x, mid) k l = cc l
      by_first (unfinished, mid) k l = cc l

  -- A run is finished if its parts are.
  pub >>=-finished :
      (m : Run V E A) (next : A → Run V E B) (h : List V)
      → (m h).0 ≢ unfinished
      → ((a : A) → (next a (m h).1).0 ≢ unfinished)
      → (◌>>=◌ m next h).0 ≢ unfinished
  >>=-finished m next h k l = by_first (m h).0 k
    where
      by_first : (r : Outcome E A) → r ≢ unfinished → (and_then r next (m h).1).0 ≢ unfinished
      by_first (returned a) n = l a
      by_first (raised x) n = λ e. cc e
      by_first unfinished n = absurd (n refl)

value_or : {E A : Type 0} → A → Outcome E A → A
value_or a (returned b) = b
value_or a (raised e) = a
value_or a unfinished = a

-- What is returned, and the events by then.
pub returned_inj :
    {E A V : Type 0} {a b : A} {h k : List V}
    → ◌≡◌ {A = Outcome E A × List V} (returned a, h) (returned b, k)
    → (a ≡ b) × (h ≡ k)
unfolding value_or
returned_inj {a = a} e = (ap (λ r. value_or a r.0) e, ap (λ r. r.1) e)

module _ {V E A : Type 0} where
  -- A handled run that returns has returned, or its handler has.
  pub rescue-parts :
      (m : Run V E A) (handler : E → Run V E A) (h : List V) {a : A} {end : List V}
      → rescue m handler h ≡ (returned a, end)
      → (m h ≡ (returned a, end))
        ⊎ ((e : E) × (mid : List V) × (m h ≡ (raised e, mid)) × (handler e mid ≡ (returned a, end)))
  rescue-parts m handler h {a = a} {end = end} e = by_outcome (m h) refl e
    where
      by_outcome :
          (first : Outcome E A × List V)
          → m h ≡ first
          → handled first.0 handler first.1 ≡ (returned a, end)
          → (m h ≡ (returned a, end))
            ⊎ ((x : E) × (mid : List V) × (m h ≡ (raised x, mid))
                × (handler x mid ≡ (returned a, end)))
      by_outcome (returned b, mid) k l = inl (k ∙ l)
      by_outcome (raised x, mid) k l = inr (x, mid, k, l)
      by_outcome (unfinished, mid) k l = cc l

  -- A handled run is finished if it is and its handler is.
  pub rescue-finished :
      (m : Run V E A) (handler : E → Run V E A) (h : List V)
      → (m h).0 ≢ unfinished
      → ((e : E) → (handler e (m h).1).0 ≢ unfinished)
      → (rescue m handler h).0 ≢ unfinished
  rescue-finished m handler h k l = by_outcome (m h).0 k
    where
      by_outcome : (r : Outcome E A) → r ≢ unfinished → (handled r handler (m h).1).0 ≢ unfinished
      by_outcome (returned a) n = λ e. cc e
      by_outcome (raised x) n = l x
      by_outcome unfinished n = absurd (n refl)
