-- ===== src/Mongo/Options/Modern.antt =====
-- Sanitised options against the settings of old servers.
use Prim.Native.String.{String}
use yggdrasil_home.Base.{
  some_inj, ◌≡◌, ◌≢◌, refl, sym, ap, subst, ◌∙◌, Bool, true, false, true≢false, Option, none, some,
  ◌==◌, if◌then◌else◌, inl, inr, Bool-cases,
}
use yggdrasil_home.Base.Fields.{get_field, pop_field, get-set_field, get-pop_field}
use yggdrasil_home.Base.Json.{Json, object, Fields, end, field}
use yggdrasil_home.Mongo.Options.{
  as_mapping, is_stderr, mapping_at, without_old_settings, or_pop, sanitize, sanitize_journal,
  sanitize_log, sanitize_storage,
}

-- What a lookup finds once a mapping is put back or, if it is empty, taken out.
abbrev unless_empty : Fields → Option Json
unless_empty end = none
unless_empty (field k v rest) = some (object (field k v rest))

get-or_pop :
    (key : String) (fs target : Fields) (j : String)
    → get_field (or_pop key fs target) j
      ≡ (if key == j then unless_empty fs else get_field target j)
get-or_pop key end target j = get-pop_field key target j
get-or_pop key (field k v rest) target j = get-set_field key (object (field k v rest)) target j

mapping_of_unless : (fs : Fields) → mapping_at (unless_empty fs) ≡ fs
mapping_of_unless end = refl
mapping_of_unless (field k v rest) = refl

-- What a modern server takes for its storage: no journal switch, no settings of the old engine.
pub record IsModernStorage (storage : Option Json) : Type 0 where
  pub no_mmapv1 : get_field (mapping_at storage) "mmapv1" ≡ none
  pub no_switch : get_field (mapping_at (get_field (mapping_at storage) "journal")) "enabled" ≡ none
  pub not_empty : storage ≢ some (object end)

pub record IsModernLog (system_log : Option Json) : Type 0 where
  pub no_stderr : is_stderr (get_field (mapping_at system_log) "destination") ≡ false

unless_not_empty : (fs : Fields) → unless_empty fs ≢ some (object end)
unless_not_empty end e = cc e
unless_not_empty (field k v rest) e = absurd (different (some_inj e))
  where
    is_end : Json → Bool
    is_end (object end) = true
    is_end other = false

    different : object (field k v rest) ≡ object end → ⊥
    different h = true≢false (sym (ap is_end h))

-- The journal of a storage without the old engine's settings.
journal_kept :
    (modern : Fields) (journal : Option Fields)
    → as_mapping (get_field modern "journal") ≡ journal
    → get_field modern "mmapv1" ≡ none
    → (get_field (sanitize_journal journal modern) "mmapv1" ≡ none)
      × (get_field (mapping_at (get_field (sanitize_journal journal modern) "journal")) "enabled"
          ≡ none)
unfolding get_field
journal_kept modern none e h = (h, rw e refl)
journal_kept modern (some journal) e h =
    let popped = pop_field "enabled" journal in
    (
      get-or_pop "journal" popped modern "mmapv1" ∙ h,
      ap (λ v. get_field (mapping_at v) "enabled") (get-or_pop "journal" popped modern "journal")
          ∙ ap (λ fs. get_field fs "enabled") (mapping_of_unless popped)
          ∙ get-pop_field "enabled" journal "enabled",
    )

storage_of_fields :
    (storage : Fields) → IsModernStorage (unless_empty (without_old_settings storage))
storage_of_fields storage =
    let modern = pop_field "mmapv1" storage in
    let (no_engine, no_switch) =
      journal_kept modern (as_mapping (get_field modern "journal")) refl
        (get-pop_field "mmapv1" storage "mmapv1") in
    let e = sym (mapping_of_unless (without_old_settings storage)) in
    record {
      no_mmapv1 = subst (λ fs. get_field fs "mmapv1" ≡ none) e no_engine;
      no_switch =
          subst (λ fs. get_field (mapping_at (get_field fs "journal")) "enabled" ≡ none) e
            no_switch;
      not_empty = unless_not_empty (without_old_settings storage);
    }

no_mapping-IsModernStorage :
    (storage : Option Json) → as_mapping storage ≡ none → IsModernStorage storage
unfolding get_field
no_mapping-IsModernStorage storage e = record {
  no_mmapv1 = rw e refl;
  no_switch = rw e refl;
  not_empty = λ h. cc (sym e ∙ ap as_mapping h);
}

sanitize_storage-modern :
    (options : Fields) (storage : Option Fields)
    → as_mapping (get_field options "storage") ≡ storage
    → IsModernStorage (get_field (sanitize_storage storage options) "storage")
sanitize_storage-modern options none e = no_mapping-IsModernStorage (get_field options "storage") e
sanitize_storage-modern options (some storage) e =
    subst IsModernStorage
      (sym (get-or_pop "storage" (without_old_settings storage) options "storage"))
      (storage_of_fields storage)

sanitize_log_other :
    (options : Fields) (system_log : Option Fields) (key : String)
    → ("systemLog" == key) ≡ false
    → get_field (sanitize_log system_log options) key ≡ get_field options key
sanitize_log_other options none key e = refl
sanitize_log_other options (some system_log) key e =
    elim (Bool-cases (is_stderr (get_field system_log "destination"))) [
      | inl k ↦
          rw k (get-or_pop "systemLog" (pop_field "destination" system_log) options key ∙ rw e refl)
      | inr k ↦ rw k refl
    ]

sanitize_log-modern :
    (options : Fields) (system_log : Option Fields)
    → as_mapping (get_field options "systemLog") ≡ system_log
    → IsModernLog (get_field (sanitize_log system_log options) "systemLog")
unfolding get_field
sanitize_log-modern options none e = record { no_stderr = rw e refl }
sanitize_log-modern options (some system_log) e =
    elim (Bool-cases (is_stderr (get_field system_log "destination"))) [
      | inl k ↦
          let popped = pop_field "destination" system_log in
          rw k (record {
            no_stderr =
                ap (λ v. is_stderr (get_field (mapping_at v) "destination"))
                  (get-or_pop "systemLog" popped options "systemLog")
                ∙ ap (λ fs. is_stderr (get_field fs "destination")) (mapping_of_unless popped)
                ∙ ap is_stderr (get-pop_field "destination" system_log "destination");
          })
      | inr k ↦ rw k (record { no_stderr = rw (e, k) refl })
    ]

sanitize_storage_other :
    (options : Fields) (storage : Option Fields) (key : String)
    → ("storage" == key) ≡ false
    → get_field (sanitize_storage storage options) key ≡ get_field options key
sanitize_storage_other options none key e = refl
sanitize_storage_other options (some storage) key e =
    get-or_pop "storage" (without_old_settings storage) options key ∙ rw e refl

-- What is left of options once they are sanitised.
pub record IsSanitized (options out : Fields) : Type 0 where
  pub modern_storage : IsModernStorage (get_field out "storage")
  pub modern_log : IsModernLog (get_field out "systemLog")
  pub others_kept :
      (key : String)
      → ("storage" == key) ≡ false
      → ("systemLog" == key) ≡ false
      → get_field out key ≡ get_field options key

-- Sanitised options have neither settings of the old storage engine, nor the journal's switch, nor
-- an empty storage, nor a log that goes to stderr; every key but these two keeps its value.
pub sanitize-IsSanitized : (options : Fields) → IsSanitized options (sanitize options)
unfolding sanitize
sanitize-IsSanitized options =
    let storage = as_mapping (get_field options "storage") in
    let stored = sanitize_storage storage options in
    let log = as_mapping (get_field stored "systemLog") in
    record {
      modern_storage =
          subst IsModernStorage (sym (sanitize_log_other stored log "storage" refl))
            (sanitize_storage-modern options storage refl);
      modern_log = sanitize_log-modern stored log refl;
      others_kept = λ key s l.
          sanitize_log_other stored log key l ∙ sanitize_storage_other options storage key s;
    }
