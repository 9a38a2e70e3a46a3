-- ===== src/CustomTools/Bindings.antt =====
-- agent/tools.py: `_load_custom_tool_bindings`, and the registry that the built-in and the custom
-- tools make up. The settings are arguments; `none` for the file is a setting that is empty.
use eda_agent.Base.{String, Bool, true, false, Option, none, some, List, [], ◌∷◌, ◌++◌, Text}
use eda_agent.Json.{Value}
use eda_agent.Json.Dict.{Dict, insert}
use eda_agent.Tools.Guardrails.{Policy}
use eda_agent.Tools.Check.{register_custom_tool_policies}
use eda_agent.Tools.Execute.{Tool, Registry}
use eda_agent.CustomTools.Spec.{Loading, loaded, config_error, other_error, and_then, Rules}
use eda_agent.CustomTools.Load.{
  Runner, FileRead, Tools, no_tools, load_custom_tools, EntryPoint, load_entry_points,
}

-- set(d.keys())
abbrev pub keys {ℓ} : {V : Type ℓ} → Dict V → List String
keys [] = []
keys ((k, v) ∷ d) = k ∷ keys d

-- d.update(e)
unfoldable pub update {ℓ} : {V : Type ℓ} → Dict V → Dict V → Dict V
unfolding insert
update d [] = d
update d ((k, v) ∷ e) = update (insert k v d) e

abbrev pub merge_tools : {F R : Type 0} → Tools F R → Tools F R → Tools F R
merge_tools tools more = record {
  schemas = tools.schemas ++ more.schemas;
  dispatch = update tools.dispatch more.dispatch;
  policies = update tools.policies more.policies;
  sources = update tools.sources more.sources;
}

-- A faulty configuration is logged, and what was gathered before is kept.
abbrev pub gather : {F R : Type 0} → Tools F R → Loading (Tools F R) → Loading (Tools F R)
gather tools (loaded more) = loaded (merge_tools tools more)
gather tools config_error = loaded tools
gather tools other_error = other_error

module _ {F R : Type 0} (key_of : Text → String) (show : Value F → Text) (build_runner : Runner → R)
    (source : String) (rules : Rules) where
  abbrev pub bind_file : Option (FileRead F) → Loading (Tools F R)
  bind_file none = loaded no_tools
  bind_file (some read) = gather no_tools (load_custom_tools key_of rules build_runner source read)

  -- The rules for the entry points: the tools of the file are reserved too.
  abbrev pub and_reserved : Tools F R → Rules
  and_reserved tools = record rules { reserved = rules.reserved ++ keys tools.dispatch }

  abbrev pub bind_entry_points : Bool → List (EntryPoint F R) → Tools F R → Loading (Tools F R)
  bind_entry_points false eps tools = loaded tools
  bind_entry_points true eps tools =
      gather tools (load_entry_points key_of show (and_reserved tools) eps no_tools)

  unfoldable pub load_custom_tool_bindings :
      Option (FileRead F) → Bool → List (EntryPoint F R) → Loading (Tools F R)
  unfolding load_custom_tools load_entry_points update
  load_custom_tool_bindings file enabled eps =
      and_then (bind_file file) (λ tools. bind_entry_points enabled eps tools)

-- `_TOOL_DISPATCH.update` and the names next to it.
unfoldable pub bind_registry :
    {F W : Type 0} → Dict Policy → Dict (Tool F W) → Tools F (Tool F W) → Registry F W
unfolding update register_custom_tool_policies
bind_registry old builtin tools = record {
  dispatch = update builtin tools.dispatch;
  custom_names = keys tools.dispatch;
  sources = tools.sources;
  policies = register_custom_tool_policies old tools.policies;
}
