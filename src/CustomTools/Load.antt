-- ===== src/CustomTools/Load.antt =====
-- agent/custom_tools.py: the two loaders, and the tool that runs a command. The file and the entry
-- points, `str`, `str.format` and the process are parameters; `key_of` gives a text as a string.
use eda_agent.Base.{
  ℕ, String, Bool, true, false, ◌||◌, Option, none, some, List, [], ◌∷◌, ◌++◌, if◌then◌else◌, Text,
  codes, mem_str, all_of, is_space, is_some, Outcome, returned, raised,
}
use eda_agent.Json.{Value, Items, Fields}
use eda_agent.Json.Value.{str, arr}
use eda_agent.Json.Items.{nil, cons}
use eda_agent.Json.Fields.{end, field}
use eda_agent.Json.Dict.{Dict, lookup, insert}
use eda_agent.Memory.Scratchpad.{as_dict}
use eda_agent.Tools.Guardrails.{Policy}
use eda_agent.CustomTools.Spec.{
  Loading, loaded, config_error, other_error, and_then, or_config_error, Rules, should_include_tool,
  validate_parameters_schema, validate_permissions, timeout_of, command_of,
}

pub record ToolSchema (F : Type 0) : Type 0 where
  pub name : String
  pub description : Text
  pub properties : Fields F
  pub required : List Text

pub record Runner : Type 0 where
  pub name : String
  pub command_tokens : List Text
  pub allowed_params : List String
  pub timeout_sec : ℕ

-- What a loader has gathered; the tools are of a type `R`.
pub record Tools (F R : Type 0) : Type 0 where
  pub schemas : List (ToolSchema F)
  pub dispatch : Dict R
  pub policies : Dict Policy
  pub sources : Dict String

abbrev pub no_tools : {F R : Type 0} → Tools F R
no_tools = record { schemas = []; dispatch = []; policies = []; sources = [] }

abbrev pub field_names : {F : Type 0} → Fields F → List String
field_names end = []
field_names (field k v fs) = k ∷ field_names fs

-- not text.strip()
abbrev pub is_blank : Text → Bool
is_blank t = all_of is_space t

abbrev pub filled_text : {F : Type 0} → Option (Value F) → Option Text
filled_text (some (str t)) = if is_blank t then none else some t
filled_text v = none

-- The entries that both loaders write for a tool.
abbrev pub add_tool : {F R : Type 0} → ToolSchema F → R → Policy → String → Tools F R → Tools F R
add_tool schema fn policy source tools = record {
  schemas = tools.schemas ++ schema ∷ [];
  dispatch = insert schema.name fn tools.dispatch;
  policies = insert schema.name policy tools.policies;
  sources = insert schema.name source tools.sources;
}

-- The file: its JSON, `faulty` if it is missing or is no JSON, or `unreadable` if reading it raises
-- another exception (OSError, UnicodeDecodeError, RecursionError).
pub data FileRead (F : Type 0) : Type 0 where
  has_json : Value F → FileRead F
  faulty unreadable : FileRead F

abbrev pub read_json : {F : Type 0} → FileRead F → Loading (Value F)
read_json (has_json raw) = loaded raw
read_json faulty = config_error
read_json unreadable = other_error

module _ {F R : Type 0} (key_of : Text → String) (rules : Rules) where
  module _ (build_runner : Runner → R) (source : String) where
    -- A tool of the file, behind the tests of its name.
    abbrev pub load_described : String → Dict (Value F) → Tools F R → Loading (Tools F R)
    load_described name item tools =
        and_then (or_config_error (filled_text (lookup "description" item))) (λ description.
          and_then (validate_parameters_schema (lookup "parameters" item)) (λ parameters.
            and_then (validate_permissions (lookup "permissions" item)) (λ policy.
              and_then (or_config_error (command_of (lookup "command" item))) (λ command.
                and_then (or_config_error (timeout_of (lookup "timeout_sec" item))) (λ timeout_sec.
                  loaded (
                    add_tool
                      (record {
                        name = name;
                        description = description;
                        properties = parameters.0;
                        required = parameters.1;
                      })
                      (build_runner (record {
                        name = name;
                        command_tokens = command;
                        allowed_params = field_names parameters.0;
                        timeout_sec = timeout_sec;
                      }))
                      policy source tools))))))

    abbrev pub load_named : Bool → Bool → String → Dict (Value F) → Tools F R → Loading (Tools F R)
    load_named true included name item tools = loaded tools
    load_named false false name item tools = loaded tools
    load_named false true name item tools = load_described name item tools

    abbrev pub load_item : Value F → Tools F R → Loading (Tools F R)
    load_item item tools = and_then (or_config_error (as_dict (some item))) (λ d.
        and_then (or_config_error (filled_text (lookup "name" d))) (λ t.
          let name = key_of t in
          load_named (mem_str name rules.reserved) (should_include_tool rules name) name d tools))

    unfoldable pub load_items : Items F → Tools F R → Loading (Tools F R)
    unfolding lookup insert validate_parameters_schema validate_permissions
    load_items nil tools = loaded tools
    load_items (cons item items) tools =
        and_then (load_item item tools) (λ more. load_items items more)

    abbrev pub items_of : Option (Value F) → Option (Items F)
    items_of (some (arr items)) = some items
    items_of v = none

    unfoldable pub load_custom_tools : FileRead F → Loading (Tools F R)
    unfolding load_items
    load_custom_tools file = and_then (read_json file) (λ raw.
        and_then (or_config_error (as_dict (some raw))) (λ root.
          and_then (or_config_error (items_of (lookup "tools" root)))
            (λ items. load_items items no_tools)))

-- What an entry point gives for a tool: `callable` is `none` if it is missing or cannot be called.
pub record EntrySpec (F R : Type 0) : Type 0 where
  pub name : Option (Value F)
  pub description : Option (Value F)
  pub parameters : Option (Value F)
  pub permissions : Option (Value F)
  pub callable : Option R

-- An entry point: the specifications that it resolves to, `none` for one that is no dict.
pub record EntryPoint (F R : Type 0) : Type 0 where
  pub name : String
  pub specs : Outcome (List (Option (EntrySpec F R)))

module _ {F R : Type 0} (key_of : Text → String) (show : Value F → Text) (rules : Rules) where
  abbrev pub add_entry :
      String
      → String
      → Text
      → Option (Value F)
      → Option (Value F)
      → R
      → Tools F R
      → Loading (Tools F R)
  add_entry source name description parameters permissions fn tools =
      and_then (validate_parameters_schema parameters) (λ found.
        and_then (validate_permissions permissions) (λ policy. loaded (
          add_tool
            (record {
              name = name;
              description = description;
              properties = found.0;
              required = found.1;
            })
            fn policy source tools)))

  abbrev pub load_entry :
      Bool → Bool → String → String → Text → EntrySpec F R → R → Tools F R → Loading (Tools F R)
  load_entry true included source name description spec fn tools = loaded tools
  load_entry false false source name description spec fn tools = loaded tools
  load_entry false true source name description spec fn tools =
      add_entry source name description spec.parameters spec.permissions fn tools

  -- The name, the description and what can be called, where nothing that must be there is missing.
  abbrev pub required_fields : EntrySpec F R → Option (Value F × Value F × R)
  required_fields spec = elim spec.name [
    | none ↦ none
    | some name ↦ elim spec.description [
      | none ↦ none
      | some description ↦ elim spec.callable [
        | none ↦ none
        | some fn ↦ if is_some spec.parameters then some (name, description, fn) else none
      ]
    ]
  ]

  abbrev pub load_spec : String → Option (EntrySpec F R) → Tools F R → Loading (Tools F R)
  load_spec source none tools = config_error
  load_spec source (some spec) tools =
      and_then (or_config_error (required_fields spec)) (λ (found : Value F × Value F × R).
        let (name, description, fn) = found in
        let key = key_of (show name) in
        load_entry (mem_str key rules.reserved || is_some (lookup key tools.dispatch))
          (should_include_tool rules key) source key (show description) spec fn tools)

  unfoldable pub load_specs :
      String → List (Option (EntrySpec F R)) → Tools F R → Loading (Tools F R)
  unfolding lookup insert validate_parameters_schema validate_permissions
  load_specs source [] tools = loaded tools
  load_specs source (raw ∷ specs) tools =
      and_then (load_spec source raw tools) (λ more. load_specs source specs more)

  unfoldable pub load_entry_points : List (EntryPoint F R) → Tools F R → Loading (Tools F R)
  unfolding load_specs
  load_entry_points [] tools = loaded tools
  load_entry_points (ep ∷ eps) tools = elim ep.specs [
    | raised message ↦ load_entry_points eps tools
    | returned specs ↦
        and_then (load_specs (key_of (codes "entrypoint:" ++ codes ep.name)) specs tools)
          (λ more. load_entry_points eps more)
  ]
