-- ===== src/CustomTools/Examples.antt =====
-- A file with one custom tool, and an entry point that gives another one.
use eda_agent.Base.{
  ◌||◌, if◌then◌else◌, ℕ, suc, String, true, false, ◌≡◌, refl, none, some, [], ◌∷◌, All, codes,
  Text, text_eq, mem_str, returned,
}
use eda_agent.Json.{Value}
use eda_agent.Json.Value.{str, arr, obj, int}
use eda_agent.Json.Items.{nil, cons}
use eda_agent.Json.Fields.{end, field}
use eda_agent.Json.Dict.{Dict, lookup}
use eda_agent.Tools.Guardrails.{Policy}
use eda_agent.Tools.Execute.{Tool}
use eda_agent.Tools.Examples.{counting}
use eda_agent.CustomTools.Spec.{loaded, should_include_tool}
use eda_agent.CustomTools.Load.{Runner, FileRead, has_json, Tools, EntrySpec, EntryPoint}
use eda_agent.CustomTools.Bindings.{keys, load_custom_tool_bindings, bind_registry}
use eda_agent.CustomTools.Gathered.{file_names, entry_names}
use eda_agent.CustomTools.Trust.{IsKnown}
use eda_agent.CustomTools.Registry.{PlainRisks, rules_for, bind_registry_lem}

abbrev key_of : Text → String
key_of t = if text_eq t (codes "echo_note") then "echo_note" else "drc_fix"

abbrev show : Value ℕ → Text
show (str t) = t
show v = codes "?"

-- A command that does nothing but count its runs.
abbrev silent : Runner → Tool ℕ ℕ
silent r args w = (returned (int 0), suc w)

abbrev parameters : Value ℕ
parameters = obj (field "type" (str (codes "object")) (field "properties" (obj end) end))

abbrev file : FileRead ℕ
file = has_json (
    obj (
      field "tools"
        (arr (
          cons
            (obj (
              field "name" (str (codes "echo_note")) (
                field "description" (str (codes "Echo.")) (
                  field "parameters" parameters (
                    field "permissions" (obj (field "risk_level" (str (codes "warn")) end))
                      (field "command" (arr (cons (str (codes "echo")) nil)) end))))))
            nil))
        end))

abbrev spec : EntrySpec ℕ (Tool ℕ ℕ)
spec = record {
  name = some (str (codes "drc_fix"));
  description = some (str (codes "Fix."));
  parameters = some parameters;
  permissions = none;
  callable = some counting;
}

abbrev entry_point : EntryPoint ℕ (Tool ℕ ℕ)
entry_point = record { name = "extra"; specs = returned (some spec ∷ []) }

abbrev builtin : Dict (Tool ℕ ℕ)
builtin = ("submit_job", counting) ∷ []

plain :
    PlainRisks key_of show silent "json:tools"
      (rules_for key_of show silent "json:tools" builtin [] [])
      (some file)
      (entry_point ∷ [])
unfolding lookup eda_agent.Json.Dict.insert
plain = ((refl, tt), ((refl, tt), tt))

bind_registry_lem_example :
    let rules = rules_for key_of show silent "json:tools" builtin [] [] in
    (tools : Tools ℕ (Tool ℕ ℕ)) × (load_custom_tool_bindings key_of show silent "json:tools" rules
        (some file)
        true
        (entry_point ∷ [])
      ≡ loaded tools)
    × ((name : String)
        → mem_str name (keys builtin) ≡ true
        → lookup name (bind_registry [] builtin tools).dispatch ≡ lookup name builtin)
    × ((n : String)
        → mem_str n (bind_registry [] builtin tools).custom_names ≡ (
            mem_str n (file_names key_of show silent "json:tools" rules (some file))
            || mem_str n (
                entry_names key_of show silent "json:tools" rules
                  (some file)
                  true
                  (entry_point ∷ []))))
    × All
        (λ n. (mem_str n (keys builtin) ≡ false) × (should_include_tool rules n ≡ true))
        (bind_registry [] builtin tools).custom_names
    × (keys (bind_registry [] builtin tools).policies
        ≡ (bind_registry [] builtin tools).custom_names)
    × All (λ (e : String × Policy). IsKnown e.1) (bind_registry [] builtin tools).policies
bind_registry_lem_example =
    bind_registry_lem key_of show silent "json:tools" builtin [] [] [] (some file) true
      (entry_point ∷ []) plain
