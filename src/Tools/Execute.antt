-- ===== src/Tools/Execute.antt =====
-- agent/tools.py: `execute_tool`. The tools, the world they change, the text of a number, and
-- whether the database takes a row (`stored`) are parameters; `none` is an exception that leaves
-- the function.
use eda_agent.Base.{
  String, Bool, Option, none, some, List, [], ◌∷◌, ◌++◌, if◌then◌else◌, mem_str, Text, codes,
  or_else, Outcome, returned, raised,
}
use eda_agent.Json.{Value}
use eda_agent.Json.Dict.{Dict, lookup}
use eda_agent.Json.Dumps.{dumps}
use eda_agent.Tools.Guardrails.{Floats, GuardrailResult, is_blocked, Policy}
use eda_agent.Tools.Check.{check}
use eda_agent.Tools.Calls.{without_flag, reply, error_value, blocked_response, AuditRow, audit_row}

abbrev pub Tool : Type 0 → Type 0 → Type 0
Tool F W = Dict (Value F) → W → Outcome (Value F) × W

-- `_TOOL_DISPATCH`, `_CUSTOM_TOOL_NAMES`, `_CUSTOM_TOOL_SOURCES` and `_CUSTOM_TOOL_POLICIES`.
pub record Registry (F W : Type 0) : Type 0 where
  pub dispatch : Dict (Tool F W)
  pub custom_names : List String
  pub sources : Dict String
  pub policies : Dict Policy

-- What a call leaves: its text, the world, and the rows of the audit table.
pub record Ran (F W : Type 0) : Type 0 where
  pub answer : Option Text
  pub world : W
  pub audit : List (AuditRow F)

module _ {F W : Type 0} (fl : Floats F) (plain : Value F → Text) (stored : AuditRow F → Bool)
    (reg : Registry F W) where
  abbrev pub answer_of : GuardrailResult → Outcome (Value F) → Value F
  answer_of gr (returned v) = reply gr v
  answer_of gr (raised message) = error_value (codes message)

  abbrev pub row_of : String → Dict (Value F) → Outcome (Value F) → AuditRow F
  row_of name args o = audit_row plain name (or_else (lookup name reg.sources) "custom") args o

  -- A row that the database does not take is logged and left out.
  abbrev pub insert_row : AuditRow F → List (AuditRow F)
  insert_row row = if stored row then row ∷ [] else []

  abbrev pub new_rows : String → Dict (Value F) → Outcome (Value F) → List (AuditRow F)
  new_rows name args o =
      if mem_str name reg.custom_names then insert_row (row_of name args o) else []

  abbrev pub after_tool :
      String
      → Dict (Value F)
      → GuardrailResult
      → List (AuditRow F)
      → Outcome (Value F) × W
      → Ran F W
  after_tool name args gr rows (o, w) = record {
    answer = some (dumps fl.repr (answer_of gr o));
    world = w;
    audit = rows ++ new_rows name args o;
  }

  abbrev pub says : Value F → W → List (AuditRow F) → Ran F W
  says v w rows = record { answer = some (dumps fl.repr v); world = w; audit = rows }

  abbrev pub after_check :
      String → Dict (Value F) → Tool F W → W → List (AuditRow F) → Option GuardrailResult → Ran F W
  after_check name args fn w rows none = record { answer = none; world = w; audit = rows }
  after_check name args fn w rows (some gr) =
      if is_blocked gr
      then says (blocked_response gr name) w rows
      else after_tool name args gr rows (fn args w)

  abbrev pub after_lookup :
      String → Dict (Value F) → W → List (AuditRow F) → Option (Tool F W) → Ran F W
  after_lookup name arguments w rows none =
      says (error_value (codes "Unknown tool: " ++ codes name)) w rows
  after_lookup name arguments w rows (some fn) =
      after_check name (without_flag arguments) fn w rows (check fl reg.policies name arguments)

  unfoldable pub execute_tool : String → Dict (Value F) → W → List (AuditRow F) → Ran F W
  unfolding lookup check without_flag blocked_response audit_row dumps
  execute_tool name arguments w rows = after_lookup name arguments w rows (lookup name reg.dispatch)
