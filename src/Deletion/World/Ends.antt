-- ===== src/Deletion/World/Ends.antt =====
-- Runs that come to an end, and the clock that loops go by.
use yggdrasil_home.Base.{
  ℕ, ◌+◌, ◌≤◌, ◌≢◌, refl, Bool, true, false, Option, none, some, List, ◌∷◌, String, if◌then◌else◌,
}
use yggdrasil_home.Deletion.World.{
  World, Event, command, sleep, History, Started, completed, not_started, as_run, call, run,
  monotonic, Outcome, done, failed, unfinished, Run, and_then, ◌>>=◌, pure, record_event, go_on,
  Failure,
}

-- The run returns or raises, from every history.
pub record Ends {A : Type 0} (m : Run A) : Type 0 where
  pub at : (h : History) → (m h).0 ≢ unfinished

pub Ends-done : {A : Type 0} (a : A) → Ends (pure a)
Ends-done a = record { at = λ h e. cc e }

pub Ends-failed : {A : Type 0} (x : Failure) → Ends {A = A} (λ h. (failed x, h))
Ends-failed x = record { at = λ h e. cc e }

pub Ends-record : (e : Event) → Ends (record_event e)
Ends-record e = record { at = λ h k. cc k }

module _ {A B : Type 0} where
  and_then-Ends :
      (r : Outcome A) (f : A → Run B) (h : History)
      → r ≢ unfinished
      → ((a : A) → Ends (f a))
      → (and_then r f h).0 ≢ unfinished
  and_then-Ends (done a) f h n q = (q a).at h
  and_then-Ends (failed x) f h n q = λ e. cc e
  and_then-Ends unfinished f h n q = absurd (n refl)

  pub Ends-bind : (m : Run A) (f : A → Run B) → Ends m → ((a : A) → Ends (f a)) → Ends (m >>= f)
  Ends-bind m f k q = record { at = λ h. and_then-Ends (m h).0 f (m h).1 (k.at h) q }

pub Ends-if : {A : Type 0} (b : Bool) (m n : Run A) → Ends m → Ends n → Ends (if b then m else n)
Ends-if true m n p q = p
Ends-if false m n p q = q

pub Ends-go_on : {A : Type 0} (o : Option A) (rest : Run A) → Ends rest → Ends (go_on o rest)
Ends-go_on none rest k = k
Ends-go_on (some a) rest k = Ends-done a

-- The same at one history, for what a loop goes on with.
module _ {A : Type 0} (h : History) where
  pub go_on_ends :
      (o : Option A) (rest : Run A) → (rest h).0 ≢ unfinished → (go_on o rest h).0 ≢ unfinished
  go_on_ends none rest k = k
  go_on_ends (some a) rest k = λ e. cc e

  pub and_then_ends :
      {B : Type 0} (r : Outcome B) (f : B → Run A)
      → r ≢ unfinished
      → ((b : B) → (f b h).0 ≢ unfinished)
      → (and_then r f h).0 ≢ unfinished
  and_then_ends (done b) f n k = k b
  and_then_ends (failed x) f n k = λ e. cc e
  and_then_ends unfinished f n k = absurd (n refl)

-- A clock that never goes back, and a sleep that takes at least its time.
pub record Clock (w : World) : Type 0 where
  pub forward : (e : Event) (h : History) → w.now h ≤ w.now (e ∷ h)
  pub slept : (t : ℕ) (h : History) → w.now h + t ≤ w.now (sleep t ∷ h)

as_run-Ends : (s : Started) → Ends (as_run s)
as_run-Ends (completed c) = Ends-done c
as_run-Ends (not_started message) = Ends-failed _

module _ (w : World) where
  pub run-Ends : (argv : List String) → Ends (run w argv)
  run-Ends argv = record {
    at = λ h. (as_run-Ends (w.reply (command argv ∷ h))).at (command argv ∷ h);
  }

  pub call-Ends : (e : Event) → Ends (call w e)
  call-Ends e = record { at = λ h k. cc k }

  pub monotonic-Ends : Ends (monotonic w)
  monotonic-Ends = record { at = λ h k. cc k }
