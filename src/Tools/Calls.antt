-- ===== src/Tools/Calls.antt =====
-- agent/tools.py: what `execute_tool` hands to the tool, gives back and writes to the audit table.
-- A tool's result and a tool's arguments are JSON values; keys of a dict are text.
use eda_agent.Base.{
  ℕ, String, Bool, true, false, Option, none, some, List, [], ◌∷◌, ◌++◌, if◌then◌else◌, str_eq,
  Text, codes, take, length, leb, Outcome, returned, raised,
}
use eda_agent.Json.{Value, Items, Fields}
use eda_agent.Json.Value.{bool, int, negint, str, arr, obj}
use eda_agent.Json.Items.{nil, cons}
use eda_agent.Json.Fields.{end, field}
use eda_agent.Json.Dict.{Dict}
use eda_agent.Tools.Guardrails.{GuardrailResult, safe, warn, block}

-- text if len(text) <= n else text[:n] + "..."
unfoldable pub clip : ℕ → Text → Text
clip n s = if leb (length s) n then s else take n s ++ codes "..."

abbrev pub to_proceed : Text
to_proceed = codes "请告知用户此操作的风险并等待明确确认。用户确认后，在参数中加入 _guardrail_confirmed=true 重新调用本工具。"

module _ {F : Type 0} where
  -- {k: v for k, v in arguments.items() if k != "_guardrail_confirmed"}
  unfoldable pub without_flag : Dict (Value F) → Dict (Value F)
  without_flag [] = []
  without_flag ((k, v) ∷ args) =
      if str_eq k "_guardrail_confirmed" then without_flag args else (k, v) ∷ without_flag args

  -- result.get(key) and result[key] = value on a dict.
  unfoldable pub get_field : String → Fields F → Option (Value F)
  get_field key end = none
  get_field key (field k v fs) = if str_eq k key then some v else get_field key fs

  unfoldable pub set_field : String → Value F → Fields F → Fields F
  set_field key value end = field key value end
  set_field key value (field k v fs) =
      if str_eq k key then field k value fs else field k v (set_field key value fs)

  abbrev pub texts : List Text → Items F
  texts [] = nil
  texts (t ∷ ts) = cons (str t) (texts ts)

  -- The result with the warnings: a dict takes a field, another result is wrapped.
  unfoldable pub attach : Value F → List Text → Value F
  unfolding set_field
  attach (obj fs) ws = obj (set_field "_warnings" (arr (texts ws)) fs)
  attach v ws = obj (field "result" v (field "_warnings" (arr (texts ws)) end))

  -- `gr.level == RiskLevel.WARN and gr.warnings`
  abbrev pub reply : GuardrailResult → Value F → Value F
  reply gr v = elim gr.level [
    | safe ↦ v
    | warn ↦ elim gr.warnings [ [] ↦ v | w ∷ ws ↦ attach v (w ∷ ws) ]
    | block ↦ v
  ]

  abbrev pub error_value : Text → Value F
  error_value message = obj (field "error" (str message) end)

  unfoldable pub blocked_response : GuardrailResult → String → Value F
  blocked_response gr name = obj (
      field "blocked" (bool true) (
        field "tool" (str (codes name))
          (field "reason" (str gr.reason) (field "to_proceed" (str to_proceed) end))))

  -- isinstance(raw_exit, int): a Python bool is an int.
  abbrev pub whole_number : Option (Value F) → Option (Value F)
  whole_number none = none
  whole_number (some (int n)) = some (int n)
  whole_number (some (negint n)) = some (negint n)
  whole_number (some (bool b)) = some (bool b)
  whole_number (some v) = none

  abbrev pub flag_or : Option (Value F) → Bool → Bool
  flag_or (some (bool b)) other = b
  flag_or v other = other

  unfoldable pub exit_code_of : Option (Value F) → Option (Value F)
  unfolding get_field
  exit_code_of (some (obj fs)) = whole_number (get_field "exit_code" fs)
  exit_code_of v = none

  unfoldable pub ok_of : Option (Value F) → Bool → Bool
  unfolding get_field
  ok_of (some (obj fs)) no_error = flag_or (get_field "ok" fs) no_error
  ok_of v no_error = no_error

pub record AuditRow (F : Type 0) : Type 0 where
  pub tool_name : String
  pub source : String
  pub arguments_summary : Dict (Value F)
  pub exit_code : Option (Value F)
  pub ok : Bool
  pub error_message : Text

-- `plain` is json.dumps with ensure_ascii=False.
module _ {F : Type 0} (plain : Value F → Text) where
  abbrev pub summarize : Value F → Value F
  summarize (str s) = str (clip 200 s)
  summarize (arr vs) = str (clip 300 (plain (arr vs)))
  summarize (obj fs) = str (clip 300 (plain (obj fs)))
  summarize v = v

  unfoldable pub summarize_arguments : Dict (Value F) → Dict (Value F)
  unfolding clip
  summarize_arguments [] = []
  summarize_arguments ((k, v) ∷ args) = (k, summarize v) ∷ summarize_arguments args

  -- The row of `_audit_custom_tool_call`, by what the tool returned or raised.
  unfoldable pub audit_row : String → String → Dict (Value F) → Outcome (Value F) → AuditRow F
  unfolding summarize_arguments exit_code_of ok_of
  audit_row name src args (returned v) = record {
    tool_name = name;
    source = src;
    arguments_summary = summarize_arguments args;
    exit_code = exit_code_of (some v);
    ok = ok_of (some v) true;
    error_message = [];
  }
  audit_row name src args (raised message) = record {
    tool_name = name;
    source = src;
    arguments_summary = summarize_arguments args;
    exit_code = exit_code_of none;
    ok = ok_of {F = F} none false;
    error_message = take 2000 (codes message);
  }
