-- ===== src/Mongo/Members/Removal.antt =====
-- What is asked of which server when members are removed.
use Prim.Native.String.{String}
use yggdrasil_home.Base.{
  ◌≡◌, sym, ap, subst, ◌∙◌, true, false, Option, none, some, List, ◌∷◌, any, inl, inr, Bool-cases,
  Option-cases, strip, if◌then◌else◌,
}
use yggdrasil_home.Base.Json.{Json, Fields, truthy, object, get_json, or_else, str}
use yggdrasil_home.Base.Run.{returned, pure, returned_inj, >>=-parts}
use yggdrasil_home.Mongo.Guest.{History, World, mongosh}
use yggdrasil_home.Mongo.Members.{
  answer_of, hello_of, host_matches, local, mongosh_host, primary_of, remove_replica_members,
  remove_script, remove_through, removal_script, replica_hello, run_mongosh, step_down_script,
  text_or_blank,
}

module _ (w : World) (hosts : List String) where
  abbrev hello_script : String
  hello_script = "JSON.stringify(db.hello())"

  -- The primary by an answer to hello: the member itself by its own name, or by the set's when it has
  -- none; the one that it names when it is not writable.
  pub data Elected (hello : Fields) : Json → Type 0 where
    is_itself :
        truthy (get_json hello "isWritablePrimary") ≡ true
        → truthy (get_json hello "me") ≡ true
        → Elected hello (get_json hello "me")
    unnamed_itself :
        truthy (get_json hello "isWritablePrimary") ≡ true
        → truthy (get_json hello "me") ≡ false
        → Elected hello (get_json hello "primary")
    names_other :
        truthy (get_json hello "isWritablePrimary") ≡ false
        → Elected hello (get_json hello "primary")

  -- The local server, asked after a history, answers that the primary has a name.
  pub record IsNamed (h : History) (name : String) : Type 0 where
    pub hello : Fields
    pub primary : Json
    pub answers : w.loads (strip (w.says (mongosh local hello_script ∷ h))) ≡ some (object hello)
    pub elected : Elected hello primary
    pub is_given : truthy primary ≡ true
    pub named : str primary ≡ name

  -- The two requests of a removal: what the local server says of itself, and what is then asked of the
  -- primary that it names.
  pub data IsRouted : (before after : History) → Type 0 where
    stepped_down :
        {h : History} (primary : String)
        → IsNamed h primary
        → any (host_matches primary) hosts ≡ true
        → IsRouted h
            (mongosh (mongosh_host primary) step_down_script ∷ mongosh local hello_script ∷ h)
    removed :
        {h : History} (primary : String)
        → IsNamed h primary
        → any (host_matches primary) hosts ≡ false
        → IsRouted h (
            mongosh (mongosh_host primary) (remove_script w hosts) ∷ mongosh local hello_script ∷ h)

  mongosh_history :
      (script host output : String) (h later : History)
      → run_mongosh w script host h ≡ (returned output, later)
      → (later ≡ mongosh host script ∷ h) × (output ≡ strip (w.says (mongosh host script ∷ h)))
  unfolding run_mongosh
  mongosh_history script host output h later e =
      elim (Option-cases (w.fails (mongosh host script ∷ h))) [
        | inl k ↦ let (said, same) = returned_inj (rw k at e) in (sym same, sym said)
        | inr (message, k) ↦ cc (rw k at e)
      ]

  hello_history :
      (output : String) (o : Option Json) (hello : Fields) (h later : History)
      → hello_of output o h ≡ (returned hello, later)
      → (later ≡ h) × (o ≡ some (object hello))
  hello_history output none hello h later e = cc e
  hello_history output (some (object fs)) hello h later e =
      let (it, same) = returned_inj e in (sym same, ap (λ gs. some (object gs)) it)
  hello_history output (some Json.null) hello h later e = cc e
  hello_history output (some (Json.flag b)) hello h later e = cc e
  hello_history output (some (Json.number n)) hello h later e = cc e
  hello_history output (some (Json.string s)) hello h later e = cc e
  hello_history output (some (Json.array xs)) hello h later e = cc e

  replica_hello_history :
      (hello : Fields) (h later : History)
      → replica_hello w h ≡ (returned hello, later)
      → (later ≡ mongosh local hello_script ∷ h)
        × (w.loads (strip (w.says (mongosh local hello_script ∷ h))) ≡ some (object hello))
  unfolding replica_hello
  replica_hello_history hello h later e =
      let (output, mid, l, m) =
        >>=-parts (run_mongosh w hello_script local) (λ output. hello_of output (w.loads output)) h
          e in
      let (same, read) = hello_history output (w.loads output) hello mid later m in
      let (asked, said) = mongosh_history hello_script local output h mid l in
      (same ∙ asked, ap w.loads (sym said) ∙ read)

  primary_of-Elected : (hello : Fields) → Elected hello (primary_of hello)
  unfolding primary_of or_else
  primary_of-Elected hello = elim (Bool-cases (truthy (get_json hello "isWritablePrimary"))) [
    | inl k ↦ elim (Bool-cases (truthy (get_json hello "me"))) [
      | inl m ↦ rw (k, m) (is_itself k m)
      | inr m ↦ rw (k, m) (unnamed_itself k m)
    ]
    | inr k ↦ rw k (names_other k)
  ]

  text_or_blank-given : (value : Json) → truthy value ≡ true → text_or_blank value ≡ str value
  unfolding text_or_blank
  text_or_blank-given value k = ap (λ b. if b then str value else "") k

  routed :
      (primary : String) (h : History)
      → IsNamed h primary
      → IsRouted h (
          mongosh (mongosh_host primary) (removal_script w primary hosts)
          ∷ mongosh local hello_script
          ∷ h)
  unfolding removal_script
  routed primary h named = elim (Bool-cases (any (host_matches primary) hosts)) [
    | inl k ↦ rw k (stepped_down primary named k)
    | inr k ↦ rw k (removed primary named k)
  ]

  through_IsRouted :
      (primary : Json) (h mid later : History) (answer : Json)
      → (truthy primary ≡ true → IsNamed h (text_or_blank primary))
      → mid ≡ mongosh local hello_script ∷ h
      → remove_through w hosts primary mid ≡ (returned answer, later)
      → IsRouted h later
  through_IsRouted primary h mid later answer named start e = elim (Bool-cases (truthy primary)) [
    | inl k ↦
        let name = text_or_blank primary in
        let (output, last, n, o) =
          >>=-parts (run_mongosh w (removal_script w name hosts) (mongosh_host name))
            (λ output. pure (answer_of hosts (w.loads output))) mid (rw k at e) in
        let (_, same) = returned_inj o in
        subst (IsRouted h)
          (sym (
            sym same
            ∙ (mongosh_history (removal_script w name hosts) (mongosh_host name) output mid last
                n).0
            ∙ ap (λ x. mongosh (mongosh_host name) (removal_script w name hosts) ∷ x) start))
          (routed name h (named k))
    | inr k ↦ cc (rw k at e)
  ]

  -- A removal that returns has made two requests: one to the local server, for what it is, and one to
  -- the primary by that server's answer: its own name if it is writable, else the one it names. The latter removes the members only if the primary is none of them; otherwise
  -- it has the primary step down and removes nothing.
  pub remove_replica_members-IsRouted :
      (h later : History) (answer : Json)
      → remove_replica_members w hosts h ≡ (returned answer, later)
      → IsRouted h later
  unfolding remove_replica_members
  remove_replica_members-IsRouted h later answer e =
      let (hello, mid, l, m) =
        >>=-parts (replica_hello w) (λ hello. remove_through w hosts (primary_of hello)) h e in
      let (asked, read) = replica_hello_history hello h mid l in
      through_IsRouted (primary_of hello) h mid later answer
        (λ k. record {
          hello = hello;
          primary = primary_of hello;
          answers = read;
          elected = primary_of-Elected hello;
          is_given = k;
          named = sym (text_or_blank-given (primary_of hello) k);
        })
        asked m
