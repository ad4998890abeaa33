-- ===== src/Deletion/World.antt =====
-- What the deletion command meets outside: subprocesses, the clustering SDK, the clock and files.
-- Everything that it does is an event of a history, newest first, and an answer may depend on the
-- whole history, so that a `World` is any deterministic environment. Times are in milliseconds.
pub mod Effects
pub mod Ends
use Prim.Native.String.{String}
use yggdrasil_home.Base.{
  ◌+◌, ◌/◌, ◌%◌, ltb, decimal, ℕ, Bool, true, false, not, ◌&&◌, ◌||◌, Option, none, some, List, [],
  ◌∷◌, ◌++◌, ◌==◌, ◌<>◌, eqb, Char, code, if◌then◌else◌, is_blank, or_text, keep, join, strip,
  lower, has_prefix, contains_text, drop_prefix,
}
use yggdrasil_home.Base.Json.{Json}
use yggdrasil_home.Base.Int.{ℤ, is_zero, show_int}

pub data Call : Type 0 where
  get_resource : (kind identifier : String) → Call
  delete_resource : (kind identifier : String) → Call
  get_action : (identifier : String) → Call

pub data Event : Type 0 where
  command : List String → Event
  senlin : Call → Event
  connect : Event
  read_clock : Event
  sleep : ℕ → Event
  say : String → Event
  warn : String → Event

abbrev pub History : Type 0
History = List Event

-- The fields of a `CompletedProcess` that are read.
pub record Completed : Type 0 where
  pub returncode : ℤ
  pub stdout : String
  pub stderr : String

pub data Started : Type 0 where
  completed : Completed → Started
  not_started : String → Started

-- What an SDK call returns, by the two attributes that are read, or the class of what it raises.
pub data Answer : Type 0 where
  returned : (id status : String) → Answer
  raised : (class_name : String) → Answer

pub data Contents : Type 0 where
  contents : String → Contents
  unreadable : String → Contents

-- `json.loads` is the JSON library's.
pub record World : Type 0 where
  pub reply : History → Started
  pub sdk : History → Answer
  pub now : History → ℕ
  pub read : String → Contents
  pub json_loads : String → Option Json

pub data Failure : Type 0 where
  plan_error : String → Failure
  os_error : String → Failure

-- `unfinished` is a loop that ran out of fuel.
pub data Outcome (A : Type 0) : Type 0 where
  done : A → Outcome A
  failed : Failure → Outcome A
  unfinished : Outcome A

abbrev pub Run : Type 0 → Type 0
Run A = History → Outcome A × History

module _ {A : Type 0} where
  abbrev pub pure : A → Run A
  pure a h = (done a, h)

  abbrev pub raise : Failure → Run A
  raise e h = (failed e, h)

  abbrev pub out_of_fuel : Run A
  out_of_fuel h = (unfinished, h)

module _ {A B : Type 0} where
  abbrev pub and_then : Outcome A → (A → Run B) → Run B
  and_then (done a) f = f a
  and_then (failed e) f = raise e
  and_then unfinished f = out_of_fuel

  infixl 5 ◌>>=◌ ◌>>◌
  abbrev pub ◌>>=◌ : Run A → (A → Run B) → Run B
  m >>= f = λ h. let (r, h') = m h in and_then r f h'

  abbrev pub ◌>>◌ : Run A → Run B → Run B
  m >> n = m >>= λ _. n

abbrev pub record_event : Event → Run (Unit {0})
record_event e h = (done tt, e ∷ h)

abbrev pub as_run : Started → Run Completed
as_run (completed c) = pure c
as_run (not_started message) = raise (os_error message)

module _ (w : World) where
  -- `subprocess.run(argv, capture_output=True, text=True, check=False)`
  abbrev pub run : List String → Run Completed
  run argv h = let h' = command argv ∷ h in as_run (w.reply h') h'

  -- `time.monotonic()`
  abbrev pub monotonic : Run ℕ
  monotonic h = let h' = read_clock ∷ h in (done (w.now h'), h')

  abbrev pub call : Event → Run Answer
  call e h = let h' = e ∷ h in (done (w.sdk h'), h')

-- `"\n".join(value for value in (stdout, stderr) if value).strip()`
unfoldable pub output_of : Completed → String
unfolding join keep strip
output_of c = strip (join "\n" (keep (λ s. not (is_blank s)) (c.stdout ∷ c.stderr ∷ [])))

unfoldable pub exit_text : Completed → String
unfolding show_int
exit_text c = "exit code " <> show_int c.returncode

-- `.* found` from here on: the rest of a line holds " found".
rest_of_line_found : String → Bool
rest_of_line_found String.[] = false
rest_of_line_found (String.◌∷◌ c s) =
    has_prefix " found" (String.◌∷◌ c s) || (not (eqb (code c) 10) && rest_of_line_found s)

found_after : Option String → Bool
found_after none = false
found_after (some rest) = rest_of_line_found rest

-- `re.search(r"no .* found", s)`
unfoldable pub says_none_found : String → Bool
unfolding found_after rest_of_line_found has_prefix drop_prefix
says_none_found String.[] = false
says_none_found (String.◌∷◌ c s) =
    found_after (drop_prefix "no " (String.◌∷◌ c s)) || says_none_found s

-- `_missing_output`
unfoldable pub missing_output : String → Bool
unfolding lower contains_text says_none_found
missing_output output =
    let text = lower output in
    contains_text "not found" text
    || says_none_found text
    || contains_text "404 not found" text
    || contains_text "does not exist" text
    || contains_text "could not be found" text
    || contains_text "does not have an interface" text

-- `f"{timeout:.0f}"` of a time in milliseconds: the nearest second, a tie to the even one.
unfoldable pub whole_seconds : ℕ → String
unfolding decimal
whole_seconds t =
    let q = t / 1000 in
    let r = t % 1000 in decimal (if ltb r 500 then q else if ltb 500 r then q + 1 else q + q % 2)

-- What ends a loop, or its next round.
abbrev pub go_on : {A : Type 0} → Option A → Run A → Run A
go_on (some a) rest = pure a
go_on none rest = rest
