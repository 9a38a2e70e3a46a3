-- ===== src/Memory/Budget.antt =====
-- The two budgets: tokens of a request (`get_messages`, `_trim_to_token_budget`) and bytes of a
-- stored session (`shrink_to_byte_budget`).
use eda_agent.Base.{
  ℕ, zero, suc, String, ◌+◌, ◌/◌, Bool, true, false, Option, none, some, List, [], ◌∷◌, ◌++◌, leb,
  ◌==◌, map, if◌then◌else◌, length, Text, codes, or_else,
}
use eda_agent.Json.{Value, Items, Fields}
use eda_agent.Json.Value.{obj, str, arr}
use eda_agent.Json.Items.{nil, cons}
use eda_agent.Json.Fields.{end, field}
use eda_agent.Json.Dumps.{dumps, utf8_length}
use eda_agent.Memory.Groups.{drop_until}
use eda_agent.Memory.History.{
  system, user, assistant, tool, Message, Memory, ToolCall, is_tool, role_is_tool,
}
use eda_agent.Memory.Wire.{Entry, WireRole, known, other, serialise}

abbrev role_name : WireRole → Text
role_name (known system) = codes "system"
role_name (known user) = codes "user"
role_name (known assistant) = codes "assistant"
role_name (known tool) = codes "tool"
role_name (other s) = codes s

abbrev as_text : Option String → Option Text
as_text none = none
as_text (some s) = some (codes s)

module _ {F : Type 0} where
  unfoldable pub call_value : ToolCall F → Value F
  call_value t = elim t.id [
    | none ↦ obj t.others
    | some i ↦ obj (field "id" (str (codes i)) t.others)
  ]

  calls_value : List (ToolCall F) → Items F
  unfolding call_value
  calls_value [] = nil
  calls_value (t ∷ ts) = cons (call_value t) (calls_value ts)

  abbrev add_text : String → Option Text → Fields F → Fields F
  add_text k none fs = fs
  add_text k (some t) fs = field k (str t) fs

  abbrev add_calls : Option (List (ToolCall F)) → Fields F → Fields F
  add_calls none fs = fs
  add_calls (some ts) fs = field "tool_calls" (arr (calls_value ts)) fs

  -- The dict of a serialised message, its keys in the order of `_serialise`.
  entry_value : Entry F → Value F
  unfolding calls_value
  entry_value e = obj (
      field "role" (str (role_name e.role)) (
        add_text "content" e.content (
          add_text "name" (as_text e.name)
            (add_text "tool_call_id" (as_text e.tool_call_id) (add_calls e.tool_calls end)))))

  entry_values : List (Entry F) → Items F
  unfolding entry_value
  entry_values [] = nil
  entry_values (e ∷ es) = cons (entry_value e) (entry_values es)

  abbrev pub wire_is_tool : Entry F → Bool
  wire_is_tool e = elim e.role [ other _ ↦ false | known r ↦ role_is_tool r ]

  abbrev pub wire_is_system : Entry F → Bool
  wire_is_system e = elim e.role [
    | other _ ↦ false
    | known r ↦ elim r [ system ↦ true | user ↦ false | assistant ↦ false | tool ↦ false ]
  ]

  abbrev pub prompt_entries : Text → List (Entry F)
  prompt_entries [] = []
  prompt_entries (c ∷ cs) =
      record {
        role = known system;
        content = some (c ∷ cs);
        name = none;
        tool_call_id = none;
        tool_calls = none;
      }
      ∷ []

module _ {F : Type 0} (repr : F → Text) where
  -- len(json.dumps(...).encode("utf-8"))
  unfoldable pub payload_bytes : List (Message F) → ℕ
  unfolding entry_values serialise dumps utf8_length
  payload_bytes ms = utf8_length (dumps repr (arr (entry_values (map serialise ms))))

  unfoldable pub shrink_to_byte_budget : ℕ → Memory F → Memory F
  shrink_to_byte_budget max_bytes mem = if max_bytes == 0 then mem else record mem {
    history =
        drop_until is_tool (length mem.history) (λ ms. leb (payload_bytes ms) max_bytes)
          mem.history;
  }

  calls_tokens : List (ToolCall F) → ℕ
  unfolding call_value dumps
  calls_tokens [] = 0
  calls_tokens (t ∷ ts) = length (dumps repr (call_value t)) / 4 + calls_tokens ts

  unfoldable pub estimate : List (Entry F) → ℕ
  unfolding calls_tokens
  estimate [] = 0
  estimate (e ∷ es) =
      length (or_else e.content []) / 4 + 4 + calls_tokens (or_else e.tool_calls []) + estimate es

  abbrev pub trim_after : List (Entry F) → List (Entry F) → ℕ → List (Entry F)
  trim_after head rest max_tokens =
      head
      ++ drop_until wire_is_tool (length rest) (λ r. leb (estimate (head ++ r)) max_tokens) rest

  abbrev pub trim_split : List (Entry F) → ℕ → List (Entry F)
  trim_split [] max_tokens = trim_after [] [] max_tokens
  trim_split (e ∷ es) max_tokens =
      if wire_is_system e
      then trim_after (e ∷ []) es max_tokens
      else trim_after [] (e ∷ es) max_tokens

  unfoldable pub trim_to_token_budget : List (Entry F) → ℕ → List (Entry F)
  trim_to_token_budget msgs max_tokens =
      if leb (estimate msgs) max_tokens then msgs else trim_split msgs max_tokens

  -- A limit that is missing or not positive is `none` or `some 0`.
  unfoldable pub get_messages : Memory F → Text → Option ℕ → List (Entry F)
  get_messages mem prompt none = prompt_entries prompt ++ map serialise mem.history
  get_messages mem prompt (some zero) = prompt_entries prompt ++ map serialise mem.history
  get_messages mem prompt (some (suc n)) =
      trim_to_token_budget (prompt_entries prompt ++ map serialise mem.history) (suc n)
