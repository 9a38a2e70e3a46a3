-- ===== src/Planner/Request.antt =====
-- agent/planner.py: the payload of a request, the retry after a timeout, and `_call_llm`. Sending, the
-- stream and the tracer are parameters.
use eda_agent.Base.{
  ℕ, zero, suc, ◌/◌, String, Bool, true, false, ◌&&◌, ◌||◌, Option, none, some, List, ◌++◌,
  if◌then◌else◌, str_eq, Text, ltb, ◌==◌, min, Outcome, returned, raised,
}
use eda_agent.Json.Value.{null}
use eda_agent.Memory.History.{Memory}
use eda_agent.Memory.Wire.{Entry}
use eda_agent.Memory.Budget.{get_messages}
use eda_agent.Memory.Scratchpad.{get}
use eda_agent.Tools.Guardrails.{truthy}
use eda_agent.Planner.Model.{Response, Services}
use eda_agent.Planner.Reading.{normalize_prompt_mode, normalize_ollama}
use eda_agent.Planner.Prompt.{build_system_prompt, messages_for_prompt_mode}

pub record Config : Type 0 where
  pub backend : String
  pub prompt_mode : Bool
  pub system_prompt : Text
  pub tools_appendix : Text
  pub max_tokens : ℕ
  pub max_output_tokens : ℕ
  pub input_max_tokens : ℕ
  pub timeout_retry_input_max_tokens : ℕ

pub record Payload (F : Type 0) : Type 0 where
  pub messages : List (Entry F)
  pub max_tokens : ℕ
  pub tool_choice : Option String
  pub stream : Bool

pub data Sent (F : Type 0) : Type 0 where
  response : Response F → Sent F
  timeout : Sent F
  fault : String → Sent F

pub record Transport (F W : Type 0) : Type 0 where
  pub send : Payload F → W → Sent F × W
  pub send_stream : Payload F → W → Outcome (Response F) × W
  pub key_of : Text → String
  pub trace_chat : List (Entry F) → Response F → W → Response F × W

abbrev pub positive : ℕ → Option ℕ
positive zero = none
positive (suc n) = some (suc n)

abbrev pub at_least_one : ℕ → ℕ
at_least_one zero = 1
at_least_one (suc n) = suc n

module _ {F W : Type 0} (sv : Services F W) (cfg : Config) (net : Transport F W) where
  abbrev pub is_vllm : Bool
  is_vllm = str_eq cfg.backend "vllm"

  -- The messages of a payload, in prompt mode or not.
  abbrev pub payload_messages : Bool → Memory F → Text → Option ℕ → List (Entry F)
  payload_messages false mem prompt budget = get_messages sv.floats.repr mem prompt budget
  payload_messages true mem prompt budget =
      messages_for_prompt_mode sv
        (get_messages sv.floats.repr mem (prompt ++ cfg.tools_appendix) budget)

  unfoldable pub build_payload : Memory F → Bool → Option ℕ → Payload F
  build_payload mem include_similar_cases budget =
      let prompt = build_system_prompt sv cfg.system_prompt include_similar_cases mem in
      record {
        messages = payload_messages cfg.prompt_mode mem prompt budget;
        max_tokens = if is_vllm then min cfg.max_tokens cfg.max_output_tokens else cfg.max_tokens;
        tool_choice = if cfg.prompt_mode then none else some (if is_vllm then "none" else "auto");
        stream = false;
      }

  abbrev pub retry_budget : ℕ
  retry_budget =
      if cfg.timeout_retry_input_max_tokens == 0
      then if cfg.input_max_tokens == 0
        then at_least_one (cfg.max_tokens / 2)
        else at_least_one (cfg.input_max_tokens / 2)
      else cfg.timeout_retry_input_max_tokens

  -- A retry must send less than the request did.
  abbrev pub reduces_context : Memory F → Bool
  reduces_context mem =
      truthy sv.floats (get mem "_similar_cases" null)
      || (ltb 0 cfg.input_max_tokens && ltb retry_budget cfg.input_max_tokens)

  abbrev pub timed_out : Outcome (Response F)
  timed_out = raised "LLM request timed out"

  abbrev pub after_retry : Sent F × W → Outcome (Response F) × W
  after_retry (response r, w) = (returned r, w)
  after_retry (timeout, w) = (timed_out, w)
  after_retry (fault message, w) = (raised message, w)

  abbrev pub after_send : Memory F → Sent F × W → Outcome (Response F) × W
  after_send mem (response r, w) = (returned r, w)
  after_send mem (fault message, w) = (raised message, w)
  after_send mem (timeout, w) = elim (reduces_context mem) [
    | false ↦ (timed_out, w)
    | true ↦ after_retry (net.send (build_payload mem false (some retry_budget)) w)
  ]

  unfoldable pub post_chat_completion : Memory F → Payload F → W → Outcome (Response F) × W
  unfolding build_payload get
  post_chat_completion mem payload w = after_send mem (net.send payload w)

  abbrev pub after_stream :
      Memory F → Payload F → Outcome (Response F) × W → Outcome (Response F) × W
  after_stream mem payload (returned r, w) = (returned r, w)
  after_stream mem payload (raised message, w) = post_chat_completion mem payload w

  abbrev pub normalized : Response F → W → Response F × W
  normalized r w =
      let (r1, w1) = if cfg.prompt_mode then normalize_prompt_mode sv net.key_of r w else (r, w) in
      if str_eq cfg.backend "ollama" then normalize_ollama sv net.key_of r1 w1 else (r1, w1)

  abbrev pub after_post :
      Bool → List (Entry F) → Outcome (Response F) × W → Outcome (Response F) × W
  after_post tracing messages (raised message, w) = (raised message, w)
  after_post tracing messages (returned r, w) =
      let (r1, w1) = normalized r w in
      let (r2, w2) = if tracing then net.trace_chat messages r1 w1 else (r1, w1) in
      (returned r2, w2)

  unfoldable pub call_llm : Bool → Bool → Memory F → W → Outcome (Response F) × W
  unfolding post_chat_completion
  call_llm stream tracing mem w =
      let payload = build_payload mem true (positive cfg.input_max_tokens) in
      after_post tracing payload.messages (
        if stream
        then after_stream mem payload (net.send_stream (record payload { stream = true }) w)
        else post_chat_completion mem payload w)
