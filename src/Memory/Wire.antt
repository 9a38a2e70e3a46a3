-- ===== src/Memory/Wire.antt =====
-- The chat format: `_serialise`, `get_messages` without a budget, and `_load_messages`.
use eda_agent.Base.{
  ℕ, String, Bool, not, ◌&&◌, Option, none, some, List, [], ◌∷◌, map, if◌then◌else◌, Text, keep_if,
  str_eq, nonempty, mem_str, or_else,
}
use eda_agent.Json.{Value}
use eda_agent.Json.Dict.{Dict}
use eda_agent.Memory.History.{
  Role, system, user, assistant, tool, ToolCall, Message, Memory, evict, plain,
}

-- A message dict: a field is `none` where the key is missing or its value is null. `role` is a text
-- there: `other` stands for any text that is none of the four roles.
pub data WireRole : Type 0 where
  known : Role → WireRole
  other : String → WireRole

pub record Entry (F : Type 0) : Type 0 where
  pub role : WireRole
  pub content : Option Text
  pub name : Option String
  pub tool_call_id : Option String
  pub tool_calls : Option (List (ToolCall F))

-- `if value:` on an optional text, and on an optional list.
abbrev pub truthy : Option String → Option String
truthy none = none
truthy (some s) = if nonempty s then some s else none

abbrev pub truthy_list {ℓ} : {A : Type ℓ} → Option (List A) → Option (List A)
truthy_list none = none
truthy_list (some []) = none
truthy_list (some (x ∷ xs)) = some (x ∷ xs)

abbrev pub name_of : Role → Option String → Option String
name_of tool n = truthy n
name_of system n = none
name_of user n = none
name_of assistant n = none

abbrev pub calls_of {ℓ} : {A : Type ℓ} → Role → Option (List A) → Option (List A)
calls_of assistant c = truthy_list c
calls_of system c = none
calls_of user c = none
calls_of tool c = none

-- [s for s in ids if s != i]: `set.discard`.
abbrev pub discard : String → List String → List String
discard i = keep_if (λ s. not (str_eq s i))

-- The test of a tool message: its id is set, and waits for a result.
abbrev pub awaited : List String → Option String → Option String
awaited pending none = none
awaited pending (some i) = if nonempty i && mem_str i pending then some i else none

module _ {F : Type 0} where
  unfoldable pub serialise : Message F → Entry F
  serialise m = record {
    role = known m.role;
    content = some m.content;
    name = name_of m.role m.tool_name;
    tool_call_id = name_of m.role m.tool_call_id;
    tool_calls = calls_of m.role m.tool_calls;
  }

  -- The ids that an assistant turn declares: `{str(t.get("id")) for t in tc if t and t.get("id")}`.
  unfoldable pub declared : List (ToolCall F) → List String
  declared [] = []
  declared (t ∷ ts) =
      let rest = declared ts in
      elim t.id [ none ↦ rest | some i ↦ if nonempty i then i ∷ rest else rest ]

  unfoldable pub declared_by : Option (List (ToolCall F)) → List String
  unfolding declared
  declared_by none = []
  declared_by (some ts) = declared ts

  abbrev pub load_tool : List String → Entry F → Option String → List String × Option (Message F)
  load_tool pending e none = (pending, none)
  load_tool pending e (some i) = (
    discard i pending,
    some (record {
      role = tool;
      content = or_else e.content [];
      tool_name = some (or_else e.name "");
      tool_call_id = some i;
      tool_calls = none;
    }),
  )

  -- One round of the loop in `_load_messages`: the ids that wait after it, and the message kept.
  abbrev pub load_as : WireRole → List String → Entry F → List String × Option (Message F)
  load_as (other _) pending e = (pending, none)
  load_as (known system) pending e = (pending, none)
  load_as (known user) pending e = ([], some (plain user (or_else e.content [])))
  load_as (known assistant) pending e =
      let calls = truthy_list e.tool_calls in
      (
        declared_by calls,
        some (record (plain assistant (or_else e.content [])) { tool_calls = calls }),
      )
  load_as (known tool) pending e = load_tool pending e (awaited pending e.tool_call_id)

  unfoldable pub load_from : List String → List (Entry F) → List (Message F)
  unfolding declared_by
  load_from pending [] = []
  load_from pending (e ∷ es) =
      let (pending', kept) = load_as e.role pending e in
      let rest = load_from pending' es in elim kept [ none ↦ rest | some m ↦ m ∷ rest ]

-- What `to_dict` returns and `from_dict` reads. A scratchpad that is missing, empty or not a dict is
-- `none` in both of its fields.
pub record Payload (F : Type 0) : Type 0 where
  pub messages : Option (List (Entry F))
  pub context : Option (Dict (Value F))
  pub internal : Option (Dict (Value F))

module _ {F : Type 0} where
  -- `_internal` is left out unless asked for.
  unfoldable pub to_dict : Bool → Memory F → Payload F
  unfolding serialise
  to_dict persist_internal mem = record {
    messages = some (map serialise mem.history);
    context = some mem.context;
    internal = if persist_internal then some mem.internal else none;
  }

  unfoldable pub from_dict : ℕ → Payload F → Memory F
  unfolding load_from evict
  from_dict max_messages payload = record {
    max_messages = max_messages;
    tool_result_max_chars = 8192;
    history = evict max_messages (load_from [] (or_else payload.messages []));
    context = or_else payload.context [];
    internal = or_else payload.internal [];
  }

  unfoldable pub from_messages : ℕ → List (Entry F) → Memory F
  unfolding from_dict
  from_messages max_messages messages =
      from_dict max_messages (record { messages = some messages; context = none; internal = none })
