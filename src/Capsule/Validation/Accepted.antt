-- ===== src/Capsule/Validation/Accepted.antt =====
-- What an accepted template has.
use Prim.Native.String.{String}
use yggdrasil_home.Base.{
  ◌≡◌, ◌≢◌, if◌then◌else◌, refl, ap, Bool, true, false, List, [], ◌∷◌, any, inl, inr, Bool-cases,
  All, arith, eq_iff,
}
use yggdrasil_home.Base.Json.{
  Json, null, flag, number, string, array, object, Items, Fields, get_json, to_list, truthy,
}
use yggdrasil_home.Capsule.Validation.{
  Verdict, accepted, invalid_spec, or_mapping, lacks_image, check_labels, check_metadata,
  check_containers, check_spec, check_kind, do_validate, is_text,
}

pub data HasImage : Json → Type 0 where
  has_image :
      (container : Fields)
      → truthy (get_json container "image") ≡ true
      → HasImage (object container)

-- A capsule with at least one container, each with an image, and whose metadata and labels are
-- mappings where they are given.
pub record IsCapsule (template : Fields) : Type 0 where
  pub kind : get_json template "kind" ≡ string "capsule"
  pub spec : Fields
  pub spec_at : or_mapping (get_json template "spec") ≡ object spec
  pub containers : Items
  pub containers_at : get_json spec "containers" ≡ array containers
  pub some_container : truthy (array containers) ≡ true
  pub images : All HasImage (to_list containers)
  pub metadata : Fields
  pub metadata_at : or_mapping (get_json template "metadata") ≡ object metadata
  pub labels : Fields
  pub labels_at : or_mapping (get_json metadata "labels") ≡ object labels

labels_accepted : (v : Json) → check_labels v ≡ accepted → (labels : Fields) × (v ≡ object labels)
unfolding check_labels
labels_accepted (object labels) e = (labels, refl)
labels_accepted null e = cc e
labels_accepted (flag b) e = cc e
labels_accepted (number n) e = cc e
labels_accepted (string s) e = cc e
labels_accepted (array xs) e = cc e

metadata_accepted :
    (v : Json)
    → check_metadata v ≡ accepted
    → (metadata : Fields) × (v ≡ object metadata)
      × (labels : Fields) × (or_mapping (get_json metadata "labels") ≡ object labels)
unfolding check_metadata
metadata_accepted (object metadata) e =
    let (labels, k) = labels_accepted (or_mapping (get_json metadata "labels")) e in
    (metadata, refl, labels, k)
metadata_accepted null e = cc e
metadata_accepted (flag b) e = cc e
metadata_accepted (number n) e = cc e
metadata_accepted (string s) e = cc e
metadata_accepted (array xs) e = cc e

image_of : (v : Json) → lacks_image v ≡ false → HasImage v
unfolding lacks_image
image_of (object container) e = elim (Bool-cases (truthy (get_json container "image"))) [
  | inl k ↦ has_image container k
  | inr k ↦ cc (rw k at e)
]
image_of null e = cc e
image_of (flag b) e = cc e
image_of (number n) e = cc e
image_of (string s) e = cc e
image_of (array xs) e = cc e

images_of : (xs : List Json) → any lacks_image xs ≡ false → All HasImage xs
unfolding any
images_of [] e = tt
images_of (x ∷ xs) e = elim (Bool-cases (lacks_image x)) [
  | inl k ↦ cc (rw k at e)
  | inr k ↦ (image_of x k, images_of xs (rw k at e))
]

no_containers :
    (b : Bool)
    → (if b
        then invalid_spec "every capsule container needs an image"
        else invalid_spec "template.spec.containers must not be empty")
      ≢ accepted
no_containers true e = cc e
no_containers false e = cc e

containers_accepted :
    (v : Json) (rest : Verdict)
    → check_containers v rest ≡ accepted
    → (containers : Items) × (v ≡ array containers)
      × (truthy (array containers) ≡ true)
      × All HasImage (to_list containers)
      × (rest ≡ accepted)
unfolding check_containers
containers_accepted (array xs) rest e = elim (Bool-cases (truthy (array xs))) [
  | inr k ↦ cc (rw k at e)
  | inl k ↦ elim (Bool-cases (any lacks_image (to_list xs))) [
    | inl m ↦ cc (rw (k, m) at e)
    | inr m ↦ (xs, refl, k, images_of (to_list xs) m, rw (k, m) at e)
  ]
]
containers_accepted null rest e = absurd (no_containers (truthy null) e)
containers_accepted (flag b) rest e = absurd (no_containers (truthy (flag b)) e)
containers_accepted (number n) rest e = absurd (no_containers (truthy (number n)) e)
containers_accepted (string s) rest e = absurd (no_containers (truthy (string s)) e)
containers_accepted (object fs) rest e = absurd (no_containers (truthy (object fs)) e)

spec_accepted :
    (v : Json) (rest : Verdict)
    → check_spec v rest ≡ accepted
    → (spec : Fields) × (v ≡ object spec)
      × (check_containers (get_json spec "containers") rest ≡ accepted)
unfolding check_spec
spec_accepted (object spec) rest e = (spec, refl, e)
spec_accepted null rest e = cc e
spec_accepted (flag b) rest e = cc e
spec_accepted (number n) rest e = cc e
spec_accepted (string s) rest e = cc e
spec_accepted (array xs) rest e = cc e

is_text-eq : (v : Json) (s : String) → is_text v s ≡ true → v ≡ string s
is_text-eq (string t) s e = ap string (ground (arith, e, eq_iff t s))
is_text-eq null s e = cc e
is_text-eq (flag b) s e = cc e
is_text-eq (number n) s e = cc e
is_text-eq (array xs) s e = cc e
is_text-eq (object fs) s e = cc e

kind_accepted :
    (template : Fields) (rest : Verdict)
    → check_kind template rest ≡ accepted
    → (get_json template "kind" ≡ string "capsule") × (rest ≡ accepted)
unfolding check_kind
kind_accepted template rest e = elim (Bool-cases (is_text (get_json template "kind") "capsule")) [
  | inl k ↦ (is_text-eq (get_json template "kind") "capsule" k, rw k at e)
  | inr k ↦ cc (rw k at e)
]

-- A template that is accepted is that of a capsule: its kind says so, it has containers, each with
-- an image, and its metadata and labels are mappings where they are given.
pub do_validate-IsCapsule :
    (template : Fields) → do_validate (object template) ≡ accepted → IsCapsule template
unfolding do_validate
do_validate-IsCapsule template e =
    let (k, a) = kind_accepted template _ e in
    let (spec, s, b) = spec_accepted (or_mapping (get_json template "spec")) _ a in
    let (containers, c, t, i, d) = containers_accepted (get_json spec "containers") _ b in
    let (metadata, m, labels, l) =
      metadata_accepted (or_mapping (get_json template "metadata")) d in
    record {
      kind = k;
      spec = spec;
      spec_at = s;
      containers = containers;
      containers_at = c;
      some_container = t;
      images = i;
      metadata = metadata;
      metadata_at = m;
      labels = labels;
      labels_at = l;
    }
