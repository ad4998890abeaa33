-- ===== src/Deletion/World/Effects.antt =====
-- What a run does to the world outside: the subprocesses and SDK calls of its history.
use yggdrasil_home.Base.{◌≡◌, refl, ap, ◌∙◌, List, [], ◌∷◌, ◌++◌, String}
use yggdrasil_home.Deletion.World.{
  Event, command, senlin, connect, read_clock, sleep, say, warn, History, Outcome, done, failed,
  unfinished, Run, and_then, ◌>>=◌, record_event, Failure,
}

abbrev pub effects_in : History → List Event
effects_in [] = []
effects_in (command argv ∷ h) = command argv ∷ effects_in h
effects_in (senlin c ∷ h) = senlin c ∷ effects_in h
effects_in (connect ∷ h) = connect ∷ effects_in h
effects_in (read_clock ∷ h) = effects_in h
effects_in (sleep t ∷ h) = effects_in h
effects_in (say line ∷ h) = effects_in h
effects_in (warn line ∷ h) = effects_in h

-- However the run ends, its effects are these, newest first.
pub record Affects {A : Type 0} (effects : List Event) (m : Run A) : Type 0 where
  pub at : (h : History) → effects_in (m h).1 ≡ effects ++ effects_in h

abbrev pub Quiet : {A : Type 0} → Run A → Type 0
Quiet m = Affects [] m

pub Quiet-pure : {A : Type 0} (r : Outcome A) → Quiet (λ h. (r, h))
Quiet-pure r = record { at = λ h. refl }

pub Quiet-say : (line : String) → Quiet (record_event (say line))
Quiet-say line = record { at = λ h. refl }

pub Quiet-warn : (line : String) → Quiet (record_event (warn line))
Quiet-warn line = record { at = λ h. refl }

module _ {A B : Type 0} where
  and_then-Quiet :
      (r : Outcome A) (f : A → Run B)
      → ((a : A) → Quiet (f a))
      → (h : History) → effects_in (and_then r f h).1 ≡ effects_in h
  and_then-Quiet (done a) f q h = (q a).at h
  and_then-Quiet (failed e) f q h = refl
  and_then-Quiet unfinished f q h = refl

  -- A run followed by a quiet one has the effects of the first.
  pub Affects-bind :
      {effects : List Event} (m : Run A) (f : A → Run B)
      → Affects effects m
      → ((a : A) → Quiet (f a))
      → Affects effects (m >>= f)
  Affects-bind m f k q = record { at = λ h. and_then-Quiet (m h).0 f q (m h).1 ∙ k.at h }

  and_then-eq-done :
      (r : Outcome A) (f : A → Run B) (h : History) {b : B}
      → (and_then r f h).0 ≡ done b
      → (a : A) × (r ≡ done a) × ((f a h).0 ≡ done b)
  and_then-eq-done (done a) f h e = (a, refl, e)
  and_then-eq-done (failed x) f h e = cc
  and_then-eq-done unfinished f h e = cc

  -- A chain that returns has a first part that returns.
  pub >>=-eq-done :
      (m : Run A) (f : A → Run B) (h : History) {b : B}
      → ((m >>= f) h).0 ≡ done b
      → (a : A) × ((m h).0 ≡ done a) × ((f a (m h).1).0 ≡ done b)
  >>=-eq-done m f h e = and_then-eq-done (m h).0 f (m h).1 e

  -- A chain after a first part whose end is known.
  pub >>=_of_done :
      (m : Run A) (f : A → Run B) (h : History) {a : A}
      → (m h).0 ≡ done a
      → (m >>= f) h ≡ f a (m h).1
  >>=_of_done m f h e = ap (λ r. and_then r f (m h).1) e

  pub >>=_of_failed :
      (m : Run A) (f : A → Run B) (h : History) {e : Failure}
      → (m h).0 ≡ failed e
      → (m >>= f) h ≡ (failed e, (m h).1)
  >>=_of_failed m f h e = ap (λ r. and_then r f (m h).1) e

value_or : {A : Type 0} → A → Outcome A → A
value_or a (done b) = b
value_or a (failed e) = a
value_or a unfinished = a

pub done_inj : {A : Type 0} {a b : A} → done a ≡ done b → a ≡ b
unfolding value_or
done_inj {a = a} e = ap (value_or a) e

module _ {A B : Type 0} where
  -- Where a chain that returns has been: the value of its first part, and the rest of it.
  pub record Followed (m : Run A) (f : A → Run B) (h : History) (b : B) : Type 0 where
    pub first : A
    pub first_eq : (m h).0 ≡ done first
    pub rest_eq : (f first (m h).1).0 ≡ done b
    pub same : (m >>= f) h ≡ f first (m h).1

  pub follow :
      (m : Run A) (f : A → Run B) (h : History) {b : B}
      → ((m >>= f) h).0 ≡ done b
      → Followed m f h b
  follow m f h e =
      let (a, p, q) = >>=-eq-done m f h e in
      record { first = a; first_eq = p; rest_eq = q; same = >>=_of_done m f h p }
