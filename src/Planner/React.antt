-- ===== src/Planner/React.antt =====
-- agent/planner.py: the loop of `Planner.run`, from the user's message on. An exception that leaves the
-- loop is `none` or `failed`; the memory keeps what was added before.
use eda_agent.Base.{
  ℕ, zero, suc, String, Bool, true, false, Option, none, some, List, [], ◌∷◌, ◌++◌, map,
  if◌then◌else◌, str_eq, mem_str, Text, codes, or_else, Outcome, returned, raised,
}
use eda_agent.Json.{Value}
use eda_agent.Json.Dict.{Dict, lookup}
use eda_agent.Memory.History.{
  Memory, Message, Role, assistant, system, user, tool, add_assistant, add_tool_result,
}
use eda_agent.Memory.Scratchpad.{as_dict, text, update_context_from_tool}
use eda_agent.Tools.Guardrails.{truthy_at}
use eda_agent.Planner.Model.{
  Call, Choice, Response, Event, iteration_start, trace, tool_call, tool_result, async_submission,
  Services, Conversation,
}

-- text or other
abbrev pub or_text : Text → Text → Text
or_text [] other = other
or_text (c ∷ cs) other = c ∷ cs

-- What one tool call, or all the calls of a round, come to: an exception, or the job submitted.
pub data Ran (F : Type 0) : Type 0 where
  broke : Ran F
  ran : Option (Dict (Value F)) → Ran F

-- How a round ends: with a reply, an exception, the loop's break, or another round.
pub data Verdict : Type 0 where
  answered : Text → Verdict
  failed stopped onward : Verdict

abbrev pub is_assistant : Role → Bool
is_assistant assistant = true
is_assistant system = false
is_assistant user = false
is_assistant tool = false

module _ {F : Type 0} where
  -- `_last_assistant_text`, over the history from its start.
  unfoldable pub last_text : Text → List (Message F) → Text
  last_text found [] = found
  last_text found (m ∷ ms) =
      last_text (if is_assistant m.role then or_text m.content found else found) ms

  abbrev pub emit : {W : Type 0} → Event F → Conversation F W → Conversation F W
  emit e c = record c { events = c.events ++ e ∷ [] }

module _ {F W : Type 0} (sv : Services F W) where
  unfoldable pub extract_job_submission : Text → Option (Dict (Value F))
  unfolding lookup
  extract_job_submission result = elim (as_dict (sv.loads result)) [
    | none ↦ none
    | some payload ↦ if truthy_at sv.floats (lookup "job_id" payload) then some payload else none
  ]

  abbrev pub shown : Option (Value F) → Text → Text
  shown none other = other
  shown (some v) other = sv.show v

  -- job_payload.get("message") or "Job submitted successfully."
  abbrev pub note_of : Option (Value F) → Text
  note_of v = if truthy_at sv.floats v then shown v [] else codes "Job submitted successfully."

  unfoldable pub format_async_submission_reply : Dict (Value F) → Text
  unfolding lookup
  format_async_submission_reply job =
      codes "任务已异步提交。\\n- job_id: "
      ++ (shown (lookup "job_id" job) (codes "None")
          ++ (codes "\\n- status: "
              ++ (shown (lookup "status" job) (codes "pending")
                  ++ (codes "\\n- next: 可用 job_status 查询进度，job_logs 查看日志。\\n- note: "
                      ++ note_of (lookup "message" job)))))

  abbrev pub job_of : String → Text → Option (Dict (Value F))
  job_of name result =
      if mem_str name ("submit_job" ∷ "run_eda_flow" ∷ [])
      then extract_job_submission result
      else none

  abbrev pub after_tool :
      String → Dict (Value F) → String → Outcome Text → Conversation F W → Ran F × Conversation F W
  after_tool name args i (raised message) c =
      (broke, emit (tool_result name false (codes message)) c)
  after_tool name args i (returned result) c =
      let c' = emit (tool_result name true result) c in
      let mem = add_tool_result c'.memory name result (some i) in
      (
        ran (job_of name result),
        record c' { memory = update_context_from_tool sv.loads mem (some args) (text result) },
      )

  abbrev pub call_with :
      String → String → Option (Dict (Value F)) → Conversation F W → Ran F × Conversation F W
  call_with name i none c = (broke, c)
  call_with name i (some args) c =
      let c' = emit (tool_call name args) c in
      let (outcome, w) = sv.execute name args c'.world in
      after_tool name args i outcome (record c' { world = w })

  -- A missing name is a KeyError; arguments that are no JSON object are a ValueError.
  unfoldable pub execute_call : Call F → Conversation F W → Ran F × Conversation F W
  unfolding extract_job_submission add_tool_result update_context_from_tool
  execute_call call c =
      let (new_id, w) = sv.fresh_id c.world in
      elim call.name [
        | none ↦ (broke, record c { world = w })
        | some name ↦
            call_with name (or_else call.stored.id new_id)
              (as_dict (sv.loads (or_else call.arguments (codes "{}")))) (record c { world = w })
      ]

  abbrev pub or_job : Option (Dict (Value F)) → Option (Dict (Value F)) → Option (Dict (Value F))
  or_job none old = old
  or_job (some new) old = some new

  unfoldable pub execute_calls :
      List (Call F) → Option (Dict (Value F)) → Conversation F W → Ran F × Conversation F W
  unfolding execute_call
  execute_calls [] job c = (ran job, c)
  execute_calls (call ∷ calls) job c =
      let one = execute_call call c in
      elim one.0 [
        | broke ↦ (broke, one.1)
        | ran found ↦ execute_calls calls (or_job found job) one.1
      ]

  -- The text of the assistant's turn, or the model's reasoning where it is empty.
  abbrev pub text_of : Choice F → Text
  text_of choice = or_text (or_else choice.content []) (or_else choice.reasoning [])

  abbrev pub remember : Text → List (Call F) → Memory F → Memory F
  remember [] [] mem = mem
  remember (t ∷ ts) [] mem = add_assistant mem (t ∷ ts) none
  remember content (c ∷ cs) mem =
      add_assistant mem content (some (map (λ (d : Call F). d.stored) (c ∷ cs)))

  abbrev pub stops : Option String → Bool
  stops none = false
  stops (some reason) = str_eq reason "stop"

  abbrev pub after_calls : Choice F → Ran F × Conversation F W → Verdict × Conversation F W
  after_calls choice (broke, c) = (failed, c)
  after_calls choice (ran (some job), c) =
      (answered (format_async_submission_reply job), emit (async_submission job) c)
  after_calls choice (ran none, c) = (if stops choice.finish_reason then stopped else onward, c)

  abbrev pub after_message :
      Choice F → List (Call F) → Conversation F W → Verdict × Conversation F W
  after_message choice [] c =
      (answered (or_text (text_of choice) (codes "Tool executed. Here's your result:")), c)
  after_message choice (call ∷ calls) c = after_calls choice (execute_calls (call ∷ calls) none c)

  abbrev pub after_choices : List (Choice F) → Conversation F W → Verdict × Conversation F W
  after_choices [] c = (
    answered
        (or_text (last_text [] c.memory.history) (codes "Sorry, I couldn't process that request.")),
    c,
  )
  after_choices (choice ∷ others) c =
      after_message choice choice.calls
        (record c { memory = remember (text_of choice) choice.calls c.memory })

  abbrev pub after_llm : Outcome (Response F) → Conversation F W → Verdict × Conversation F W
  after_llm (raised message) c = (failed, c)
  after_llm (returned r) c = after_choices r.choices (if r.traced then emit trace c else c)

  unfoldable pub round : ℕ → Conversation F W → Verdict × Conversation F W
  unfolding execute_calls add_assistant format_async_submission_reply last_text
  round n c =
      let c' = emit (iteration_start n) c in
      let (outcome, w) = sv.call_llm c'.memory c'.world in
      after_llm outcome (record c' { world = w })

  abbrev pub last_word : Conversation F W → Option Text × Conversation F W
  last_word c =
      (some (or_text (last_text [] c.memory.history) (codes "Agent reached max iterations.")), c)

  -- The for loop with `left` iterations to go, after `n` of them.
  unfoldable pub react : ℕ → ℕ → Conversation F W → Option Text × Conversation F W
  unfolding round
  react zero n c = last_word c
  react (suc left) n c =
      let r = round (suc n) c in
      elim r.0 [
        | answered t ↦ (some t, r.1)
        | failed ↦ (none, r.1)
        | stopped ↦ last_word r.1
        | onward ↦ react left (suc n) r.1
      ]
