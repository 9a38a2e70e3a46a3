-- ===== src/CustomTools/Sound.antt =====
-- What the loaders keep: names that are new and allowed, and a known policy for each of them.
use eda_agent.Base.{
  String, Bool, true, false, ◌||◌, ◌≡◌, refl, sym, ap, subst, ◌∙◌, Option, none, some, List, [],
  ◌∷◌, ◌++◌, All, Text, codes, mem_str, is_some, arith, Outcome, returned, raised,
}
use eda_agent.Json.{Value, Items}
use eda_agent.Json.Items.{nil, cons}
use eda_agent.Json.Dict.{Dict, lookup}
use eda_agent.Memory.Scratchpad.{as_dict}
use eda_agent.Tools.Guardrails.{Policy}
use eda_agent.CustomTools.Spec.{
  Loading, loaded, config_error, other_error, and_then, or_config_error, Rules, should_include_tool,
  validate_parameters_schema, validate_permissions, command_of, timeout_of,
}
use eda_agent.CustomTools.Load.{
  ToolSchema, Runner, FileRead, read_json, Tools, EntrySpec, EntryPoint, no_tools, filled_text,
  add_tool, load_described, load_named, load_item, load_items, items_of, load_custom_tools,
  add_entry, load_entry, required_fields, load_spec, load_specs, load_entry_points,
}
use eda_agent.CustomTools.Bindings.{keys, merge_tools, gather}
use eda_agent.CustomTools.Names.{
  insert_key, insert_keys, All-insert_key, keys-insert, All-insert, All-update, All-keys-update,
  keys-update,
}
use eda_agent.CustomTools.Trust.{IsKnown, and_then-inv, loaded-inj, validate_permissions-IsKnown}

abbrev pub IsNew : Rules → String → Type 0
IsNew rules name = (mem_str name rules.reserved ≡ false) × (should_include_tool rules name ≡ true)

module _ {F R : Type 0} (rules : Rules) where
  abbrev pub Sound : Tools F R → Type 0
  Sound tools =
      All (IsNew rules) (keys tools.dispatch)
      × (keys tools.policies ≡ keys tools.dispatch)
      × All (λ (e : String × Policy). IsKnown e.1) tools.policies

  add_tool-Sound :
      (schema : ToolSchema F) (fn : R) (policy : Policy) (source : String) (tools : Tools F R)
      → IsNew rules schema.name
      → IsKnown policy
      → Sound tools
      → Sound (add_tool schema fn policy source tools)
  add_tool-Sound schema fn policy source tools new known h = (
    subst (All (IsNew rules)) (sym (keys-insert schema.name fn tools.dispatch))
        (All-insert_key (IsNew rules) schema.name (keys tools.dispatch) new h.0),
    keys-insert schema.name policy tools.policies
        ∙ ap (insert_key schema.name) h.1
        ∙ sym (keys-insert schema.name fn tools.dispatch),
    All-insert IsKnown schema.name policy tools.policies known h.2,
  )

  merge_tools-Sound : (a b : Tools F R) → Sound a → Sound b → Sound (merge_tools a b)
  merge_tools-Sound a b h k = (
    All-keys-update (IsNew rules) a.dispatch b.dispatch h.0 k.0,
    keys-update a.policies b.policies
        ∙ ap (λ ks. insert_keys ks (keys b.policies)) h.1
        ∙ ap (insert_keys (keys a.dispatch)) k.1
        ∙ sym (keys-update a.dispatch b.dispatch),
    All-update IsKnown a.policies b.policies h.2 k.2,
  )

  pub gather-Sound :
      (tools : Tools F R) (r : Loading (Tools F R)) (t : Tools F R)
      → Sound tools
      → ((more : Tools F R) → r ≡ loaded more → Sound more)
      → gather tools r ≡ loaded t
      → Sound t
  gather-Sound tools (loaded more) t h k e =
      subst Sound (loaded-inj e) (merge_tools-Sound tools more h (k more refl))
  gather-Sound tools config_error t h k e = subst Sound (loaded-inj e) h
  gather-Sound tools other_error t h k e = grind (arith, e)

  module _ (key_of : Text → String) (build_runner : Runner → R) (source : String) where
    load_described-Sound :
        (name : String) (item : Dict (Value F)) (tools t : Tools F R)
        → IsNew rules name
        → Sound tools
        → load_described key_of rules build_runner source name item tools ≡ loaded t
        → Sound t
    load_described-Sound name item tools t new h e =
        let (description, _, e1) =
          and_then-inv (or_config_error (filled_text (lookup "description" item))) e in
        let (parameters, _, e2) =
          and_then-inv (validate_parameters_schema (lookup "parameters" item)) e1 in
        let (policy, known, e3) =
          and_then-inv (validate_permissions (lookup "permissions" item)) e2 in
        let (command, _, e4) =
          and_then-inv (or_config_error (command_of (lookup "command" item))) e3 in
        let (timeout_sec, _, e5) =
          and_then-inv (or_config_error (timeout_of (lookup "timeout_sec" item))) e4 in
        subst Sound (loaded-inj e5) (
          add_tool-Sound
            (record {
              name = name;
              description = description;
              properties = parameters.0;
              required = parameters.1;
            })
            _ policy source tools new
            (validate_permissions-IsKnown (lookup "permissions" item) policy known) h)

    load_named-Sound :
        (b i : Bool) (name : String) (item : Dict (Value F)) (tools t : Tools F R)
        → mem_str name rules.reserved ≡ b
        → should_include_tool rules name ≡ i
        → Sound tools
        → load_named key_of rules build_runner source b i name item tools ≡ loaded t
        → Sound t
    load_named-Sound true i name item tools t p q h e = subst Sound (loaded-inj e) h
    load_named-Sound false false name item tools t p q h e = subst Sound (loaded-inj e) h
    load_named-Sound false true name item tools t p q h e =
        load_described-Sound name item tools t (p, q) h e

    load_item-Sound :
        (item : Value F) (tools t : Tools F R)
        → Sound tools
        → load_item key_of rules build_runner source item tools ≡ loaded t
        → Sound t
    load_item-Sound item tools t h e =
        let (d, _, e1) = and_then-inv (or_config_error (as_dict (some item))) e in
        let (name, _, e2) = and_then-inv (or_config_error (filled_text (lookup "name" d))) e1 in
        load_named-Sound _ _ (key_of name) d tools t refl refl h e2

    load_items-Sound :
        (items : Items F) (tools t : Tools F R)
        → Sound tools
        → load_items key_of rules build_runner source items tools ≡ loaded t
        → Sound t
    unfolding load_items
    load_items-Sound nil tools t h e = subst Sound (loaded-inj e) h
    load_items-Sound (cons item items) tools t h e =
        let (more, e1, e2) =
          and_then-inv (load_item key_of rules build_runner source item tools) e in
        load_items-Sound items more t (load_item-Sound item tools more h e1) e2

    pub load_custom_tools-Sound :
        (file : FileRead F) (t : Tools F R)
        → load_custom_tools key_of rules build_runner source file ≡ loaded t
        → Sound t
    unfolding load_custom_tools
    load_custom_tools-Sound file t e0 =
        let (raw, _, e) = and_then-inv (read_json file) e0 in
        let (root, _, e1) = and_then-inv (or_config_error (as_dict (some raw))) e in
        let (items, _, e2) =
          and_then-inv
            (or_config_error (items_of key_of rules build_runner source (lookup "tools" root)))
            e1 in
        load_items-Sound items no_tools t (tt, refl, tt) e2

  module _ (key_of : Text → String) (show : Value F → Text) where
    add_entry-Sound :
        (source name : String) (description : Text) (parameters permissions : Option (Value F))
        (fn : R) (tools t : Tools F R)
        → IsNew rules name
        → Sound tools
        → add_entry key_of show rules source name description parameters permissions fn tools
          ≡ loaded t
        → Sound t
    add_entry-Sound source name description parameters permissions fn tools t new h e =
        let (found, _, e1) = and_then-inv (validate_parameters_schema parameters) e in
        let (policy, known, e2) = and_then-inv (validate_permissions permissions) e1 in
        subst Sound (loaded-inj e2) (
          add_tool-Sound
            (record {
              name = name;
              description = description;
              properties = found.0;
              required = found.1;
            })
            fn policy source tools new (validate_permissions-IsKnown permissions policy known) h)

    load_entry-Sound :
        (b i : Bool) (source name : String) (description : Text) (spec : EntrySpec F R) (fn : R)
        (tools t : Tools F R)
        → (mem_str name rules.reserved || is_some (lookup name tools.dispatch)) ≡ b
        → should_include_tool rules name ≡ i
        → Sound tools
        → load_entry key_of show rules b i source name description spec fn tools ≡ loaded t
        → Sound t
    load_entry-Sound true i source name description spec fn tools t p q h e =
        subst Sound (loaded-inj e) h
    load_entry-Sound false false source name description spec fn tools t p q h e =
        subst Sound (loaded-inj e) h
    load_entry-Sound false true source name description spec fn tools t p q h e =
        add_entry-Sound source name description spec.parameters spec.permissions fn tools t
          (grind (arith, p), q) h e

    load_spec-Sound :
        (source : String) (raw : Option (EntrySpec F R)) (tools t : Tools F R)
        → Sound tools
        → load_spec key_of show rules source raw tools ≡ loaded t
        → Sound t
    load_spec-Sound source none tools t h e = grind (arith, e)
    load_spec-Sound source (some spec) tools t h e =
        let (found, _, e1) =
          and_then-inv (or_config_error (required_fields key_of show rules spec)) e in
        let (name, description, fn) = found in
        load_entry-Sound _ _ source (key_of (show name)) (show description) spec fn tools t refl
          refl h e1

    load_specs-Sound :
        (source : String) (specs : List (Option (EntrySpec F R))) (tools t : Tools F R)
        → Sound tools
        → load_specs key_of show rules source specs tools ≡ loaded t
        → Sound t
    unfolding load_specs
    load_specs-Sound source [] tools t h e = subst Sound (loaded-inj e) h
    load_specs-Sound source (raw ∷ specs) tools t h e =
        let (more, e1, e2) = and_then-inv (load_spec key_of show rules source raw tools) e in
        load_specs-Sound source specs more t (load_spec-Sound source raw tools more h e1) e2

    resolved-Sound :
        (source : String) (o : Outcome (List (Option (EntrySpec F R))))
        (eps : List (EntryPoint F R)) (tools t : Tools F R)
        → ((more : Tools F R)
            → Sound more
            → load_entry_points key_of show rules eps more ≡ loaded t
            → Sound t)
        → Sound tools
        → (elim o as (λ x. Loading (Tools F R)) [
          | raised message ↦ load_entry_points key_of show rules eps tools
          | returned specs ↦
              and_then
                (load_specs key_of show rules source specs tools)
                (λ more. load_entry_points key_of show rules eps more)
        ])
          ≡ loaded t
        → Sound t
    resolved-Sound source (raised message) eps tools t rest h e = rest tools h e
    resolved-Sound source (returned specs) eps tools t rest h e =
        let (more, e1, e2) = and_then-inv (load_specs key_of show rules source specs tools) e in
        rest more (load_specs-Sound source specs tools more h e1) e2

    pub load_entry_points-Sound :
        (eps : List (EntryPoint F R)) (tools t : Tools F R)
        → Sound tools
        → load_entry_points key_of show rules eps tools ≡ loaded t
        → Sound t
    unfolding load_entry_points
    load_entry_points-Sound [] tools t h e = subst Sound (loaded-inj e) h
    load_entry_points-Sound (ep ∷ eps) tools t h e =
        resolved-Sound (key_of (codes "entrypoint:" ++ codes ep.name)) ep.specs eps tools t
          (λ more k e1. load_entry_points-Sound eps more t k e1) h e
