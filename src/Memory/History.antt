-- ===== src/Memory/History.antt =====
-- `Message`, `AgentMemory` and the methods that change the message history. A limit that is zero or
-- negative in the program is 0 here: both switch the limit off.
use eda_agent.Base.{
  ℕ, String, ◌-◌, Bool, true, false, ◌&&◌, ◌||◌, Option, none, some, List, [], ◌∷◌, ◌++◌, leb, ltb,
  ◌==◌, if◌then◌else◌, Text, codes, length, take,
}
use eda_agent.Json.{Value, Fields}
use eda_agent.Json.Dict.{Dict}
use eda_agent.Json.Dumps.{decimal}
use eda_agent.Memory.Groups.{drop_until}

pub data Role : Type 0 where
  system user assistant tool : Role

-- One dict of `tool_calls`: its "id", and its other entries.
pub record ToolCall (F : Type 0) : Type 0 where
  pub id : Option String
  pub others : Fields F

pub record Message (F : Type 0) : Type 0 where
  pub role : Role
  pub content : Text
  pub tool_name : Option String
  pub tool_call_id : Option String
  pub tool_calls : Option (List (ToolCall F))

pub record Memory (F : Type 0) : Type 0 where
  pub max_messages : ℕ
  pub tool_result_max_chars : ℕ
  pub history : List (Message F)
  pub context : Dict (Value F)
  pub internal : Dict (Value F)

abbrev pub role_is_tool : Role → Bool
role_is_tool tool = true
role_is_tool system = false
role_is_tool user = false
role_is_tool assistant = false

abbrev pub truncation_note : ℕ → Text
truncation_note dropped =
    codes "\n…<truncated "
    ++ (decimal dropped ++ codes " chars; use job_logs / query_timing for the full payload>")

unfoldable pub truncate : ℕ → Text → Text
unfolding decimal
truncate keep content =
    if ltb 0 keep && ltb keep (length content)
    then take keep content ++ truncation_note (length content - keep)
    else content

module _ {F : Type 0} where
  abbrev pub is_tool : Message F → Bool
  is_tool m = role_is_tool m.role

  -- AgentMemory.__init__
  abbrev pub new_memory : ℕ → ℕ → Memory F
  new_memory max_messages max_chars = record {
    max_messages = max_messages;
    tool_result_max_chars = max_chars;
    history = [];
    context = [];
    internal = [];
  }

  unfoldable pub evict : ℕ → List (Message F) → List (Message F)
  unfolding drop_until
  evict max_n history =
      if max_n == 0 || leb (length history) max_n
      then history
      else drop_until is_tool (length history) (λ h. leb (length h) max_n) history

  -- `_evict_if_needed` on the object.
  abbrev pub evict_if_needed : Memory F → Memory F
  evict_if_needed mem = record mem { history = evict mem.max_messages mem.history }

  unfoldable pub add : Memory F → Message F → Memory F
  unfolding evict
  add mem msg = evict_if_needed (record mem { history = mem.history ++ msg ∷ [] })

  abbrev pub plain : Role → Text → Message F
  plain role content = record {
    role = role;
    content = content;
    tool_name = none;
    tool_call_id = none;
    tool_calls = none;
  }

  unfoldable pub add_user : Memory F → Text → Memory F
  unfolding add
  add_user mem content = add mem (plain user content)

  unfoldable pub add_assistant : Memory F → Text → Option (List (ToolCall F)) → Memory F
  unfolding add
  add_assistant mem content calls =
      add mem (record (plain assistant content) { tool_calls = calls })

  abbrev pub tool_message : ℕ → String → Text → Option String → Message F
  tool_message max_chars name content call_id = record {
    role = tool;
    content = truncate max_chars content;
    tool_name = some name;
    tool_call_id = call_id;
    tool_calls = none;
  }

  unfoldable pub add_tool_result : Memory F → String → Text → Option String → Memory F
  unfolding add truncate
  add_tool_result mem name content call_id =
      add mem (tool_message mem.tool_result_max_chars name content call_id)

  -- Drop the history, keep the scratchpad.
  unfoldable pub clear : Memory F → Memory F
  clear mem = record mem { history = [] }

  unfoldable pub forget : Memory F → Memory F
  forget mem = record mem { history = []; context = []; internal = [] }
