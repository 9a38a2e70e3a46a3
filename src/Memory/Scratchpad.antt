-- ===== src/Memory/Scratchpad.antt =====
-- The scratchpad of `AgentMemory`: `set`, `get`, and the facts taken from a tool call.
use eda_agent.Base.{
  String, Bool, false, Option, none, some, List, [], ◌∷◌, if◌then◌else◌, Text, str_eq, ◌==◌,
  or_else,
}
use Prim.Native.Char.{code}
use eda_agent.Json.{Value, Fields}
use eda_agent.Json.Value.{null, str, obj}
use eda_agent.Json.Fields.{end, field}
use eda_agent.Json.Dict.{Dict, lookup, insert}
use eda_agent.Memory.History.{Memory}

-- key.startswith("_")
unfoldable pub is_volatile : String → Bool
is_volatile String.[] = false
is_volatile (String.◌∷◌ c s) = code c == 95

abbrev pub context_keys : List String
context_keys =
    "design_name" ∷ "pdk" ∷ "config_path" ∷ "design_config" ∷ "backend" ∷ "last_run_id" ∷ "run_id"
    ∷ "stage" ∷ []

module _ {F : Type 0} where
  unfoldable pub set : Memory F → String → Value F → Memory F
  set mem key value =
      if is_volatile key
      then record mem { internal = insert key value mem.internal }
      else record mem { context = insert key value mem.context }

  unfoldable pub get : Memory F → String → Value F → Value F
  get mem key default =
      or_else (if is_volatile key then lookup key mem.internal else lookup key mem.context) default

  -- `val in (None, "")` of `source.get(key)`, negated.
  abbrev pub usable : Option (Value F) → Option (Value F)
  usable none = none
  usable (some null) = none
  usable (some (str [])) = none
  usable (some v) = some v

  abbrev pub put_fact : Memory F → String → Option (Value F) → Memory F
  put_fact mem key none = mem
  put_fact mem key (some v) =
      if str_eq key "design_config" then set mem "config_path" v else set mem key v

  unfoldable pub put_facts : Memory F → Dict (Value F) → List String → Memory F
  put_facts mem source [] = mem
  put_facts mem source (key ∷ keys) =
      put_facts (put_fact mem key (usable (lookup key source))) source keys

  -- A parsed JSON object as a dict: of equal keys the last one counts.
  abbrev pub entries_onto : Dict (Value F) → Fields F → Dict (Value F)
  entries_onto d end = d
  entries_onto d (field k v fs) = entries_onto (insert k v d) fs

  -- `isinstance(source, dict)`
  abbrev pub as_dict : Option (Value F) → Option (Dict (Value F))
  as_dict (some (obj fs)) = some (entries_onto [] fs)
  as_dict _ = none

  abbrev pub put_source : Memory F → Option (Dict (Value F)) → Memory F
  put_source mem none = mem
  put_source mem (some source) = put_facts mem source context_keys

-- What a tool returned: a dict, or a text that `json.loads` may fail to read.
pub data ToolResult (F : Type 0) : Type 0 where
  nothing : ToolResult F
  dict : Dict (Value F) → ToolResult F
  text : Text → ToolResult F

module _ {F : Type 0} (loads : Text → Option (Value F)) where
  abbrev pub parsed : ToolResult F → Option (Dict (Value F))
  parsed nothing = none
  parsed (dict d) = some d
  parsed (text t) = as_dict (loads t)

  unfoldable pub update_context_from_tool :
      Memory F → Option (Dict (Value F)) → ToolResult F → Memory F
  update_context_from_tool mem arguments result =
      put_source (put_source mem arguments) (parsed result)
