-- ===== src/Planner/Model.antt =====
-- agent/planner.py: the data that `Planner.run` works on, and the services that it calls. The language
-- model, the tools, fresh ids, `json.loads`, `str` and
-- `json.dumps` without ASCII escapes are parameters. A response that is empty or has no
-- choices has the list [] here.
use eda_agent.Base.{ℕ, String, Bool, Option, List, Text, Outcome}
use eda_agent.Json.{Value}
use eda_agent.Json.Dict.{Dict}
use eda_agent.Memory.History.{Memory, ToolCall}
use eda_agent.Tools.Guardrails.{Floats}

-- One entry of `tool_calls`: the dict that the memory keeps, and its function's name and arguments.
pub record Call (F : Type 0) : Type 0 where
  pub stored : ToolCall F
  pub name : Option String
  pub arguments : Option Text

-- `choices[i]`: a missing finish_reason is "stop", null is `none`.
pub record Choice (F : Type 0) : Type 0 where
  pub finish_reason : Option String
  pub content : Option Text
  pub reasoning : Option Text
  pub calls : List (Call F)

pub record Response (F : Type 0) : Type 0 where
  pub choices : List (Choice F)
  pub traced : Bool

-- The events that `on_event` gets, without their durations. A listener cannot change the run.
pub data Event (F : Type 0) : Type 0 where
  iteration_start : ℕ → Event F
  trace : Event F
  tool_call : String → Dict (Value F) → Event F
  tool_result : String → Bool → Text → Event F
  async_submission : Dict (Value F) → Event F

pub record Services (F W : Type 0) : Type 0 where
  pub call_llm : Memory F → W → Outcome (Response F) × W
  pub execute : String → Dict (Value F) → W → Outcome Text × W
  pub search_cases : String → W → Outcome (Value F) × W
  pub fresh_id : W → String × W
  pub loads : Text → Option (Value F)
  pub show : Value F → Text
  pub plain_dumps : Value F → Text
  pub floats : Floats F

-- A conversation: the memory, the world, and the events so far.
pub record Conversation (F W : Type 0) : Type 0 where
  pub memory : Memory F
  pub world : W
  pub events : List (Event F)
