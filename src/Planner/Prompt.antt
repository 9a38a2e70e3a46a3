-- ===== src/Planner/Prompt.antt =====
-- agent/planner.py: the system prompt of a turn, and the rewriting of messages for models that know no
-- tool roles.
use eda_agent.Base.{
  ℕ, zero, suc, ◌-◌, String, Bool, Option, none, some, List, [], ◌∷◌, ◌++◌, if◌then◌else◌, Text,
  codes, length, take, leb, ◌==◌, or_else,
}
use eda_agent.Json.{Value, Items, Fields}
use eda_agent.Json.Value.{null, str, arr}
use eda_agent.Json.Items.{nil, cons}
use eda_agent.Json.Dict.{Dict}
use eda_agent.Json.Dumps.{decimal}
use eda_agent.Memory.History.{Memory, ToolCall, Role, system, user, assistant, tool}
use eda_agent.Memory.Wire.{WireRole, known, other, Entry}
use eda_agent.Memory.Scratchpad.{get}
use eda_agent.Tools.Guardrails.{truthy}
use eda_agent.Tools.Calls.{get_field}
use eda_agent.Planner.Model.{Services}
use eda_agent.Planner.Cases.{as_fields}

module _ {F W : Type 0} (sv : Services F W) where
  -- str(value or "")
  abbrev pub text_or_empty : Option (Value F) → Text
  text_or_empty none = []
  text_or_empty (some v) = if truthy sv.floats v then sv.show v else []

  unfoldable pub truncate_text : Option (Value F) → ℕ → Text
  truncate_text v limit =
      let t = text_or_empty v in
      if limit == 0 then [] else if leb (length t) limit then t else take (limit - 1) t ++ codes "…"

  -- "; ".join over the first `left` actions
  abbrev pub join_actions : ℕ → Items F → Text
  join_actions zero vs = []
  join_actions (suc left) nil = []
  join_actions (suc left) (cons v nil) = truncate_text (some v) 400
  join_actions (suc zero) (cons v (cons u vs)) = truncate_text (some v) 400
  join_actions (suc (suc left)) (cons v (cons u vs)) =
      truncate_text (some v) 400 ++ (codes "; " ++ join_actions (suc left) (cons u vs))

  abbrev pub items_of : Option (Value F) → Items F
  items_of (some (arr vs)) = vs
  items_of _ = nil

  abbrev pub shown_or : Option (Value F) → Text → Text
  shown_or none t = t
  shown_or (some v) t = sv.show v

  abbrev pub metrics_line : Option (Value F) → Text
  metrics_line none = []
  metrics_line (some v) =
      if truthy sv.floats v
      then codes "**Result metrics**: "
        ++ (truncate_text (some (str (sv.plain_dumps v))) 300 ++ codes "\n")
      else []

  abbrev pub case_prompt : ℕ → Fields F → Text
  case_prompt i c =
      codes "\n### Case "
      ++ (decimal i
          ++ (codes " (design: "
              ++ (shown_or (get_field "design_name" c) (codes "unknown")
                  ++ (codes ")\n**Symptoms**: "
                      ++ (truncate_text (get_field "symptoms" c) 400
                          ++ (codes "\n**Root cause**: "
                              ++ (truncate_text (get_field "root_cause" c) 400
                                  ++ (codes "\n**Actions taken**: "
                                      ++ (join_actions 4 (items_of (get_field "actions" c))
                                          ++ (codes "\n"
                                              ++ metrics_line
                                                  (get_field "result_metrics" c)))))))))))

  unfoldable pub case_prompts : ℕ → Items F → Text
  unfolding truncate_text get_field decimal
  case_prompts i nil = []
  case_prompts i (cons v vs) = case_prompt i (as_fields v) ++ case_prompts (suc i) vs

  unfoldable pub format_similar_cases_prompt : Items F → Text
  unfolding case_prompts
  format_similar_cases_prompt nil = []
  format_similar_cases_prompt (cons v vs) =
      codes "\n\n## Similar Historical Cases (for reference)\n" ++ case_prompts 1 (cons v vs)

  -- `extract_design_context`: every fact that is neither None nor "".
  abbrev pub fact_line : String → Value F → Text
  fact_line k null = []
  fact_line k (str []) = []
  fact_line k v = codes "- " ++ (codes k ++ (codes ": " ++ (sv.show v ++ codes "\n")))

  unfoldable pub context_lines : Dict (Value F) → Text
  context_lines [] = []
  context_lines ((k, v) ∷ d) = fact_line k v ++ context_lines d

  abbrev pub context_prompt : Text → Text
  context_prompt [] = []
  context_prompt (c ∷ cs) = codes "\n\n## Current Design Context (USE THIS)\n" ++ (c ∷ cs)

  unfoldable pub build_system_prompt : Text → Bool → Memory F → Text
  unfolding context_lines format_similar_cases_prompt get
  build_system_prompt base include_similar_cases mem =
      base
      ++ (context_prompt (context_lines mem.context)
          ++ (if include_similar_cases
              then format_similar_cases_prompt (items_of (some (get mem "_similar_cases" null)))
              else []))

  -- json.dumps(json.loads(args_raw)), or the raw value where that fails.
  abbrev pub pretty_arguments : Value F → Text
  pretty_arguments (str s) = elim (sv.loads s) [ none ↦ s | some v ↦ sv.plain_dumps v ]
  pretty_arguments v = sv.show v

  abbrev pub call_text : ToolCall F → Text
  call_text call =
      let fn = as_fields (or_else (get_field "function" call.others) null) in
      codes "<tool_call>\n{\"name\": \""
      ++ (shown_or (get_field "name" fn) (codes "unknown")
          ++ (codes "\", \"arguments\": "
              ++ (pretty_arguments (or_else (get_field "arguments" fn) (str (codes "{}")))
                  ++ codes "}\n</tool_call>")))

  unfoldable pub call_texts : List (ToolCall F) → Text
  unfolding get_field
  call_texts [] = []
  call_texts (call ∷ []) = call_text call
  call_texts (call ∷ next ∷ calls) = call_text call ++ (codes "\n" ++ call_texts (next ∷ calls))

  abbrev pub beside : Text → Text → Text
  beside [] calls = calls
  beside (c ∷ cs) calls = (c ∷ cs) ++ (codes "\n" ++ calls)

  abbrev pub with_calls : Text → Option (List (ToolCall F)) → Text
  with_calls content none = content
  with_calls content (some []) = content
  with_calls content (some (call ∷ calls)) = beside content (call_texts (call ∷ calls))

  abbrev pub bare : Role → Text → Entry F
  bare role content = record {
    role = known role;
    content = some content;
    name = none;
    tool_call_id = none;
    tool_calls = none;
  }

  abbrev pub prompt_entry : WireRole → Entry F → List (Entry F)
  prompt_entry (other _) e = []
  prompt_entry (known system) e = bare system (or_else e.content []) ∷ []
  prompt_entry (known user) e = bare user (or_else e.content []) ∷ []
  prompt_entry (known assistant) e =
      bare assistant (with_calls (or_else e.content []) e.tool_calls) ∷ []
  prompt_entry (known tool) e =
      bare user (
        codes "[Tool result for "
        ++ (codes (or_else e.name "unknown_tool") ++ (codes "]\n" ++ or_else e.content [])))
      ∷ []

  unfoldable pub messages_for_prompt_mode : List (Entry F) → List (Entry F)
  unfolding call_texts
  messages_for_prompt_mode [] = []
  messages_for_prompt_mode (e ∷ es) = prompt_entry e.role e ++ messages_for_prompt_mode es
