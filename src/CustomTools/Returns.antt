-- ===== src/CustomTools/Returns.antt =====
-- When the loaders return: every risk level that they read can be looked for in a set.
use eda_agent.Base.{
  String, Bool, true, false, ◌≡◌, subst, Option, none, some, List, [], ◌∷◌, ◌++◌, All, Text, codes,
  or_else, Outcome, returned, raised,
}
use eda_agent.Json.{Value, Items}
use eda_agent.Json.Items.{nil, cons}
use eda_agent.Json.Dict.{Dict, lookup}
use eda_agent.Memory.Scratchpad.{as_dict}
use eda_agent.CustomTools.Spec.{
  Loading, and_then, Rules, validate_parameters_schema, validate_permissions, command_of,
  timeout_of,
}
use eda_agent.CustomTools.Load.{
  Runner, FileRead, has_json, faulty, unreadable, Tools, EntrySpec, EntryPoint, no_tools,
  filled_text, load_described, load_named, load_item, load_items, items_of, load_custom_tools,
  load_entry, required_fields, load_spec, load_specs, load_entry_points,
}
use eda_agent.CustomTools.Checks.{
  Returns, and_then-Returns, and_then_option-Returns, plain_risk, permissions_of, PlainItems,
  validate_permissions-Returns, validate_parameters-Returns,
}

module _ {F R : Type 0} (key_of : Text → String) (rules : Rules) where
  module _ (build_runner : Runner → R) (source : String) where
    load_described-Returns :
        (name : String) (item : Dict (Value F)) (tools : Tools F R)
        → plain_risk (lookup "permissions" item) ≡ true
        → Returns (load_described key_of rules build_runner source name item tools)
    load_described-Returns name item tools h =
        and_then_option-Returns (filled_text (lookup "description" item)) _ (λ description _.
          and_then-Returns (validate_parameters_schema (lookup "parameters" item)) _
            (validate_parameters-Returns (lookup "parameters" item))
            (λ parameters _.
              and_then-Returns (validate_permissions (lookup "permissions" item)) _
                (validate_permissions-Returns (lookup "permissions" item) h)
                (λ policy _.
                  and_then_option-Returns (command_of (lookup "command" item)) _ (λ command _.
                    and_then_option-Returns (timeout_of (lookup "timeout_sec" item)) _
                      (λ timeout_sec _. tt)))))

    load_named-Returns :
        (b i : Bool) (name : String) (item : Dict (Value F)) (tools : Tools F R)
        → plain_risk (lookup "permissions" item) ≡ true
        → Returns (load_named key_of rules build_runner source b i name item tools)
    load_named-Returns true i name item tools h = tt
    load_named-Returns false false name item tools h = tt
    load_named-Returns false true name item tools h = load_described-Returns name item tools h

    load_item-Returns :
        (item : Value F) (tools : Tools F R)
        → plain_risk (permissions_of item) ≡ true
        → Returns (load_item key_of rules build_runner source item tools)
    load_item-Returns item tools h = and_then_option-Returns (as_dict (some item)) _ (λ d e.
        and_then_option-Returns (filled_text (lookup "name" d)) _ (λ t _.
          load_named-Returns _ _ (key_of t) d tools (
            subst
              (λ o.
                plain_risk (elim o as (λ x. Option (Value F)) [
                  | none ↦ none
                  | some found ↦ lookup "permissions" found
                ])
                ≡ true)
              e h)))

    load_items-Returns :
        (items : Items F) (tools : Tools F R)
        → PlainItems items
        → Returns (load_items key_of rules build_runner source items tools)
    unfolding load_items
    load_items-Returns nil tools h = tt
    load_items-Returns (cons item items) tools h =
        and_then-Returns (load_item key_of rules build_runner source item tools) _
          (load_item-Returns item tools h.0) (λ more _. load_items-Returns items more h.1)

    abbrev items_at : Option (Dict (Value F)) → Items F
    items_at none = nil
    items_at (some d) = or_else (items_of key_of rules build_runner source (lookup "tools" d)) nil

    -- The file can be read, unless it is missing or no JSON, and no permissions in it have a list or
    -- a dict for a risk level.
    abbrev pub PlainFile : FileRead F → Type 0
    PlainFile (has_json raw) = PlainItems (items_at (as_dict (some raw)))
    PlainFile faulty = Unit
    PlainFile unreadable = ⊥

    pub load_custom_tools-Returns :
        (file : FileRead F)
        → PlainFile file
        → Returns (load_custom_tools key_of rules build_runner source file)
    unfolding load_custom_tools and_then
    load_custom_tools-Returns faulty h = tt
    load_custom_tools-Returns unreadable h = elim h [ ]
    load_custom_tools-Returns (has_json raw) h =
        and_then_option-Returns (as_dict (some raw)) _ (λ root e.
          let k = subst (λ o. PlainItems (items_at o)) e h in
          and_then_option-Returns (items_of key_of rules build_runner source (lookup "tools" root))
            _
            (λ items e1.
              load_items-Returns items no_tools (subst (λ o. PlainItems (or_else o nil)) e1 k)))

module _ {F R : Type 0} where
  abbrev pub PlainSpec : Option (EntrySpec F R) → Type 0
  PlainSpec none = Unit
  PlainSpec (some spec) = plain_risk spec.permissions ≡ true

  abbrev pub PlainSpecs : Outcome (List (Option (EntrySpec F R))) → Type 0
  PlainSpecs (raised message) = Unit
  PlainSpecs (returned specs) = All PlainSpec specs

module _ {F R : Type 0} (key_of : Text → String) (show : Value F → Text) (rules : Rules) where
  load_entry-Returns :
      (b i : Bool) (source name : String) (description : Text) (spec : EntrySpec F R) (fn : R)
      (tools : Tools F R)
      → plain_risk spec.permissions ≡ true
      → Returns (load_entry key_of show rules b i source name description spec fn tools)
  load_entry-Returns true i source name description spec fn tools h = tt
  load_entry-Returns false false source name description spec fn tools h = tt
  load_entry-Returns false true source name description spec fn tools h =
      and_then-Returns (validate_parameters_schema spec.parameters) _
        (validate_parameters-Returns spec.parameters)
        (λ found _.
          and_then-Returns (validate_permissions spec.permissions) _
            (validate_permissions-Returns spec.permissions h) (λ policy _. tt))

  load_spec-Returns :
      (source : String) (raw : Option (EntrySpec F R)) (tools : Tools F R)
      → PlainSpec raw
      → Returns (load_spec key_of show rules source raw tools)
  load_spec-Returns source none tools h = tt
  load_spec-Returns source (some spec) tools h =
      and_then_option-Returns (required_fields key_of show rules spec) _
        (λ (found : Value F × Value F × R) e.
          let (name, description, fn) = found in
          load_entry-Returns _ _ source (key_of (show name)) (show description) spec fn tools h)

  load_specs-Returns :
      (source : String) (specs : List (Option (EntrySpec F R))) (tools : Tools F R)
      → All PlainSpec specs
      → Returns (load_specs key_of show rules source specs tools)
  unfolding load_specs
  load_specs-Returns source [] tools h = tt
  load_specs-Returns source (raw ∷ specs) tools h =
      and_then-Returns (load_spec key_of show rules source raw tools) _
        (load_spec-Returns source raw tools h.0)
        (λ more _. load_specs-Returns source specs more h.1)

  resolved-Returns :
      (source : String) (o : Outcome (List (Option (EntrySpec F R)))) (eps : List (EntryPoint F R))
      (tools : Tools F R)
      → ((more : Tools F R) → Returns (load_entry_points key_of show rules eps more))
      → PlainSpecs o
      → Returns (elim o as (λ x. Loading (Tools F R)) [
        | raised message ↦ load_entry_points key_of show rules eps tools
        | returned specs ↦
            and_then
              (load_specs key_of show rules source specs tools)
              (λ more. load_entry_points key_of show rules eps more)
      ])
  resolved-Returns source (raised message) eps tools rest h = rest tools
  resolved-Returns source (returned specs) eps tools rest h =
      and_then-Returns (load_specs key_of show rules source specs tools) _
        (load_specs-Returns source specs tools h) (λ more _. rest more)

  pub load_entry_points-Returns :
      (eps : List (EntryPoint F R)) (tools : Tools F R)
      → All (λ (ep : EntryPoint F R). PlainSpecs ep.specs) eps
      → Returns (load_entry_points key_of show rules eps tools)
  unfolding load_entry_points
  load_entry_points-Returns [] tools h = tt
  load_entry_points-Returns (ep ∷ eps) tools h =
      resolved-Returns (key_of (codes "entrypoint:" ++ codes ep.name)) ep.specs eps tools
        (λ more. load_entry_points-Returns eps more h.1) h.0
