-- ===== src/Planner/Limits.antt =====
-- What keeps a memory within its limit, the rounds that the events tell of, and replies.
use eda_agent.Base.{
  ℕ, String, ◌≡◌, sym, subst, ◌∙◌, ◌≤◌, ◌<◌, ◌+◌, Option, none, some, List, [], ◌∷◌, ◌++◌, Text,
  length, arith,
}
use eda_agent.Json.{Value}
use eda_agent.Json.Dict.{Dict}
use eda_agent.Memory.History.{
  Memory, Message, ToolCall, assistant, plain, tool_message, add, add_assistant, add_tool_result,
}
use eda_agent.Memory.Eviction.{evict_bounds}
use eda_agent.Memory.Scratchpad.{ToolResult, update_context_from_tool}
use eda_agent.Memory.Kept.{update_context-SameTurns}
use eda_agent.Planner.Model.{
  Event, iteration_start, trace, tool_call, tool_result, async_submission,
}
use eda_agent.Planner.React.{or_text}

module _ {F : Type 0} where
  -- The limit on messages is `n`, and is kept if it is set.
  abbrev pub IsWithin : ℕ → Memory F → Type 0
  IsWithin n mem = (mem.max_messages ≡ n) × (0 < n → length mem.history ≤ n)

  pub add-IsWithin :
      (n : ℕ) (mem : Memory F) (m : Message F) → mem.max_messages ≡ n → IsWithin n (add mem m)
  unfolding add
  add-IsWithin n mem m e = (
    e,
    λ p. omega (arith, (evict_bounds mem.max_messages (mem.history ++ m ∷ []) (omega arith)).0),
  )

  pub add_tool_result-IsWithin :
      (n : ℕ) (mem : Memory F) (name : String) (result : Text) (i : Option String)
      → IsWithin n mem
      → IsWithin n (add_tool_result mem name result i)
  unfolding add_tool_result
  add_tool_result-IsWithin n mem name result i h =
      add-IsWithin n mem (tool_message mem.tool_result_max_chars name result i) h.0

  pub add_assistant-IsWithin :
      (n : ℕ) (mem : Memory F) (content : Text) (calls : Option (List (ToolCall F)))
      → IsWithin n mem
      → IsWithin n (add_assistant mem content calls)
  unfolding add_assistant
  add_assistant-IsWithin n mem content calls h =
      add-IsWithin n mem (record (plain assistant content) { tool_calls = calls }) h.0

  pub update-IsWithin :
      (loads : Text → Option (Value F)) (n : ℕ) (mem : Memory F) (args : Option (Dict (Value F)))
      (result : ToolResult F)
      → IsWithin n mem
      → IsWithin n (update_context_from_tool loads mem args result)
  update-IsWithin loads n mem args result h =
      let kept = update_context-SameTurns loads mem args result in
      (kept.0 ∙ h.0, λ p. subst (λ l. length l ≤ n) (sym kept.1) (h.1 p))

  -- How many rounds the events tell of.
  unfoldable pub rounds : List (Event F) → ℕ
  rounds [] = 0
  rounds (iteration_start n ∷ es) = 1 + rounds es
  rounds (trace ∷ es) = rounds es
  rounds (tool_call n a ∷ es) = rounds es
  rounds (tool_result n b t ∷ es) = rounds es
  rounds (async_submission d ∷ es) = rounds es

  pub rounds-snoc :
      (es : List (Event F)) (e : Event F) → rounds (es ++ e ∷ []) ≡ rounds es + rounds (e ∷ [])
  unfolding rounds
  rounds-snoc [] e = omega arith
  rounds-snoc (iteration_start n ∷ es) e = omega (arith, rounds-snoc es e)
  rounds-snoc (trace ∷ es) e = rounds-snoc es e
  rounds-snoc (tool_call n a ∷ es) e = rounds-snoc es e
  rounds-snoc (tool_result n b t ∷ es) e = rounds-snoc es e
  rounds-snoc (async_submission d ∷ es) e = rounds-snoc es e

-- A reply, where there is one, is not empty.
abbrev pub IsReply : Option Text → Type 0
IsReply none = Unit
IsReply (some []) = ⊥
IsReply (some (c ∷ cs)) = Unit

pub or_text-IsReply : (t : Text) (c : ℕ) (cs : Text) → IsReply (some (or_text t (c ∷ cs)))
or_text-IsReply [] c cs = tt
or_text-IsReply (x ∷ xs) c cs = tt
