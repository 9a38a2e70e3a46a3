-- ===== src/Memory/Facts.antt =====
-- What the scratchpad holds after a write, and after a tool call.
use eda_agent.Base.{
  String, ◌≡◌, refl, ◌∙◌, ap, sym, All, false, Option, none, some, List, [], ◌∷◌, if◌then◌else◌,
  Text, str_eq, arith, eq_iff,
}
use eda_agent.Json.{Value}
use eda_agent.Json.Dict.{Dict, lookup, lookup-insert}
use eda_agent.Memory.History.{Memory}
use eda_agent.Memory.Scratchpad.{
  is_volatile, context_keys, set, get, usable, put_fact, put_facts, put_source, ToolResult, parsed,
  update_context_from_tool,
}

-- The facts that a tool call may set.
pub data Fact : Type 0 where
  design_name pdk config_path backend last_run_id run_id stage : Fact

abbrev pub key_of : Fact → String
key_of design_name = "design_name"
key_of pdk = "pdk"
key_of config_path = "config_path"
key_of backend = "backend"
key_of last_run_id = "last_run_id"
key_of run_id = "run_id"
key_of stage = "stage"

-- "design_config" is stored as "config_path".
abbrev target : String → String
target k = if str_eq k "design_config" then "config_path" else k

config_path_kept : is_volatile "config_path" ≡ false
unfolding is_volatile
config_path_kept = refl

module _ {F : Type 0} where
  abbrev pub or_first : Option (Value F) → Option (Value F) → Option (Value F)
  or_first none o = o
  or_first (some v) o = some v

  -- What one dict says of a fact: "design_config" speaks for the config path, before "config_path".
  abbrev pub offered : Fact → Dict (Value F) → Option (Value F)
  offered config_path d =
      or_first (usable (lookup "design_config" d)) (usable (lookup "config_path" d))
  offered f d = usable (lookup (key_of f) d)

  abbrev pub offered_by : Fact → Option (Dict (Value F)) → Option (Value F)
  offered_by f none = none
  offered_by f (some d) = offered f d

  -- A value is read back under its key, and no other key changes, whichever of the two namespaces
  -- they are in.
  pub get-set :
      (mem : Memory F) (k j : String) (v d : Value F)
      → get (set mem k v) j d ≡ (if str_eq k j then v else get mem j d)
  unfolding get set
  get-set mem k j v d =
      ground (arith, eq_iff k j, lookup-insert k j v mem.context, lookup-insert k j v mem.internal)

  -- The value that the keys of a list give to `j`, the last one before the others.
  latest : String → Dict (Value F) → List String → Option (Value F)
  latest j source [] = none
  latest j source (k ∷ keys) =
      or_first (latest j source keys)
        (if str_eq (target k) j then usable (lookup k source) else none)

  put_fact-context :
      (mem : Memory F) (k j : String) (o : Option (Value F))
      → is_volatile k ≡ false
      → lookup j (put_fact mem k o).context
        ≡ or_first (if str_eq (target k) j then o else none) (lookup j mem.context)
  unfolding set
  put_fact-context mem k j none h = ground arith
  put_fact-context mem k j (some v) h = ground (
    arith,
    h,
    config_path_kept,
    lookup-insert "config_path" j v mem.context,
    lookup-insert k j v mem.context,
  )

  or_first_assoc :
      (a b c : Option (Value F)) → or_first (or_first a b) c ≡ or_first a (or_first b c)
  or_first_assoc none b c = refl
  or_first_assoc (some v) b c = refl

  or_first-none : (a : Option (Value F)) → or_first a none ≡ a
  or_first-none none = refl
  or_first-none (some v) = refl

  put_facts-latest :
      (mem : Memory F) (source : Dict (Value F)) (j : String) (keys : List String)
      → All (λ k. is_volatile k ≡ false) keys
      → lookup j (put_facts mem source keys).context
        ≡ or_first (latest j source keys) (lookup j mem.context)
  unfolding put_facts latest
  put_facts-latest mem source j [] h = refl
  put_facts-latest mem source j (k ∷ keys) h =
      put_facts-latest (put_fact mem k (usable (lookup k source))) source j keys h.1
      ∙ ap (or_first (latest j source keys))
          (put_fact-context mem k j (usable (lookup k source)) h.0)
      ∙ sym (or_first_assoc (latest j source keys) _ _)

  latest-offered :
      (f : Fact) (source : Dict (Value F))
      → latest (key_of f) source context_keys ≡ offered f source
  unfolding latest
  latest-offered design_name source = refl
  latest-offered _ source = simp or_first-none

  put_facts-offered :
      (mem : Memory F) (source : Dict (Value F)) (f : Fact)
      → lookup (key_of f) (put_facts mem source context_keys).context
        ≡ or_first (offered f source) (lookup (key_of f) mem.context)
  put_facts-offered mem source f =
      put_facts-latest mem source (key_of f) context_keys
        (unfold is_volatile in (refl, (refl, (refl, (refl, (refl, (refl, (refl, (refl, tt)))))))))
      ∙ ap (λ o. or_first o (lookup (key_of f) mem.context)) (latest-offered f source)

  put_source-offered :
      (mem : Memory F) (source : Option (Dict (Value F))) (f : Fact)
      → lookup (key_of f) (put_source mem source).context
        ≡ or_first (offered_by f source) (lookup (key_of f) mem.context)
  put_source-offered mem none f = refl
  put_source-offered mem (some d) f = put_facts-offered mem d f

module _ {F : Type 0} (loads : Text → Option (Value F)) where
  -- After a tool call each session fact is what the result says of it, else what the arguments
  -- say, else what it was; null and empty texts say nothing, and design_config speaks for the
  -- configuration path.
  pub update_context_lem :
      (mem : Memory F) (arguments : Option (Dict (Value F))) (result : ToolResult F) (f : Fact)
      → lookup (key_of f) (update_context_from_tool loads mem arguments result).context
        ≡ or_first
            (offered_by f (parsed loads result))
            (or_first (offered_by f arguments) (lookup (key_of f) mem.context))
  unfolding update_context_from_tool
  update_context_lem mem arguments result f =
      put_source-offered (put_source mem arguments) (parsed loads result) f
      ∙ ap (or_first (offered_by f (parsed loads result))) (put_source-offered mem arguments f)
