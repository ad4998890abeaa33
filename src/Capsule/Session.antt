-- ===== src/Capsule/Session.antt =====
-- The Zun API as the capsule profile meets it: requests and their replies, the clock, and
-- `_response_json`, `_is_not_found`, `_get_capsule`, `_capsule_url` and `_session_and_base_url`.
use Prim.Native.String.{String}
use yggdrasil_home.Base.{
  ℕ, Bool, false, Option, none, some, List, ◌∷◌, ◌==◌, ◌<>◌, eqb, if◌then◌else◌, is_blank,
  rstrip_by, same_char,
}
use yggdrasil_home.Base.Dict
use yggdrasil_home.Base.Json.{Json, object, Fields, end, to_dict}

-- An exception: its class, the status that it carries itself, that of its response, and its text.
-- `resource_id` is that of Senlin's own exceptions.
pub record Error : Type 0 where
  pub class_name : String
  pub http_status : Option String
  pub response_status : Option String
  pub message : String
  pub resource_id : String

-- A payload of `none` is content that is not JSON.
pub record Response : Type 0 where
  pub status_code : ℕ
  pub has_content : Bool
  pub payload : Option Json

pub data Request : Type 0 where
  get_url : String → Request
  delete_url : String → Request
  post_url : String → Json → Request

pub data Reply : Type 0 where
  responded : Response → Reply
  failed_with : Error → Reply

pub data Event : Type 0 where
  request : Request → Event
  read_clock : Event
  sleep : ℕ → Event
  log : String → Event

abbrev pub History : Type 0
History = List Event

-- The session, `eventlet`, `urljoin` and the interpreter's own exceptions. `endpoint` is what the
-- connection's service catalog gives, or what it raises.
pub data Endpoint : Type 0 where
  endpoint_at : String → Endpoint
  no_connection : Error → Endpoint

pub record World : Type 0 where
  pub send : History → Reply
  pub now : History → ℕ
  pub raise_for_status : Response → Option Error
  pub invalid_json : Response → Error
  pub attribute_error : Json → Error
  pub unhashable : Json → Error
  pub urljoin : String → String → String
  pub endpoint : Endpoint

pub data Outcome (A : Type 0) : Type 0 where
  returned : A → Outcome A
  raised : Error → Outcome A
  unfinished : Outcome A

abbrev pub Run : Type 0 → Type 0
Run A = History → Outcome A × History

module _ {A : Type 0} where
  abbrev pub pure : A → Run A
  pure a h = (returned a, h)

  abbrev pub raise : Error → Run A
  raise e h = (raised e, h)

  abbrev pub out_of_fuel : Run A
  out_of_fuel h = (unfinished, h)

  abbrev pub or_raise : Option Error → Run A → Run A
  or_raise none rest = rest
  or_raise (some e) rest = raise e

  -- `try: … except Exception as error: …`
  abbrev pub handled : Outcome A → (Error → Run A) → Run A
  handled (returned a) handler = pure a
  handled (raised e) handler = handler e
  handled unfinished handler = out_of_fuel

  abbrev pub rescue : Run A → (Error → Run A) → Run A
  rescue m handler h = let (r, h') = m h in handled r handler h'

module _ {A B : Type 0} where
  abbrev pub and_then : Outcome A → (A → Run B) → Run B
  and_then (returned a) f = f a
  and_then (raised e) f = raise e
  and_then unfinished f = out_of_fuel

  infixl 5 ◌>>=◌ ◌>>◌
  abbrev pub ◌>>=◌ : Run A → (A → Run B) → Run B
  m >>= f = λ h. let (r, h') = m h in and_then r f h'

  abbrev pub ◌>>◌ : Run A → Run B → Run B
  m >> n = m >>= λ _. n

abbrev pub record_event : Event → Run (Unit {0})
record_event e h = (returned tt, e ∷ h)

abbrev pub error : String → String → Error
error class_name message = record {
  class_name = class_name;
  http_status = none;
  response_status = none;
  message = message;
  resource_id = "";
}

abbrev is_text : String → Option String → Bool
is_text s none = false
is_text s (some t) = t == s

-- `_is_not_found`
unfoldable pub is_not_found : Error → Bool
is_not_found e = elim e.http_status [
  | none ↦ is_text "404" e.response_status
  | some status ↦ status == "404"
]

module _ (w : World) where
  abbrev pub monotonic : Run ℕ
  monotonic h = let h' = read_clock ∷ h in (returned (w.now h'), h')

  abbrev pub send_request : Request → Run Reply
  send_request r h = let h' = request r ∷ h in (returned (w.send h'), h')

  abbrev pub capsule_url : String → String → String
  capsule_url base_url capsule_id = w.urljoin base_url ("capsules/" <> capsule_id)

  abbrev pub capsules_url : String → String
  capsules_url base_url = w.urljoin base_url "capsules/"

  -- What `_get_capsule` makes of the reply: the response, or none for a capsule that is not there.
  unfoldable pub capsule_of : Reply → Run (Option Response)
  unfolding is_not_found
  capsule_of (failed_with e) = if is_not_found e then pure none else raise e
  capsule_of (responded r) =
      if eqb r.status_code 404 then pure none else or_raise (w.raise_for_status r) (pure (some r))

  unfoldable pub get_capsule : String → Run (Option Response)
  unfolding capsule_of
  get_capsule url = send_request (get_url url) >>= capsule_of

  abbrev capsule_in : Option Json → Json → Json
  capsule_in none payload = payload
  capsule_in (some capsule) payload = capsule

  abbrev payload_capsule : Json → Json
  payload_capsule (object fs) = capsule_in (Dict.get (to_dict fs) "capsule") (object fs)
  payload_capsule other = object end

  -- `_response_json`
  unfoldable pub response_json : Response → Run Json
  unfolding Dict.get
  response_json r =
      if r.has_content
      then elim r.payload [
        | none ↦ raise (w.invalid_json r)
        | some payload ↦ pure (payload_capsule payload)
      ]
      else pure (object end)

  -- `value.get`: only a mapping has it.
  unfoldable pub fields_of : Json → Run Fields
  fields_of (object fs) = pure fs
  fields_of other = raise (w.attribute_error other)

  abbrev base_at : String → Run String
  base_at url =
      if is_blank url
      then raise (error "ResourceNotFound" "service endpoint container")
      else pure (rstrip_by (same_char "/") url <> "/")

  -- `_session_and_base_url`
  unfoldable pub connect : Run String
  unfolding rstrip_by
  connect = elim w.endpoint [ no_connection e ↦ raise e | endpoint_at url ↦ base_at url ]
