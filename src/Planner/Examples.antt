-- ===== src/Planner/Examples.antt =====
-- Concrete conversations, cycles and requests, with numbers in the place of floats and of the world.
use eda_agent.Base.{
  ℕ, zero, suc, ap, subst, ◌≤◌, ◌≡◌, refl, true, false, ◌&&◌, none, some, [], ◌∷◌, codes, All,
  arith, Outcome, returned, raised, mem_str, length,
}
use eda_agent.Json.{Value}
use eda_agent.Json.Value.{int, str}
use eda_agent.Json.Fields.{end, field}
use eda_agent.Memory.History.{Memory, new_memory, plain, user}
use eda_agent.Memory.Pairing.{IsPaired, pending_from}
use eda_agent.Memory.Scratchpad.{get}
use eda_agent.Tools.Examples.{whole}
use eda_agent.Planner.Model.{Call, Response, Services, Conversation}
use eda_agent.Planner.Bounds.{IsEnded, run-IsEnded}
use eda_agent.Planner.Pairing.{NamesCalls, HasIds, run-IsPaired}
use eda_agent.Planner.Cases.{entries, cache_of, refresh_similar_cases, run}
use eda_agent.Planner.Caching.{SameCases, refresh_twice}
use eda_agent.Planner.Agents.{
  Task, Team, risk_level, is_high, selected, dispatch_subagents, merge_agent_outputs,
  apply_hitl_gate, status_counts,
}
use eda_agent.Planner.Gate.{total, cycle_gate}
use eda_agent.Planner.Request.{
  Config, Payload, Transport, timeout, response, retry_budget, reduces_context, after_retry,
  build_payload, post_chat_completion,
}
use eda_agent.Planner.Retry.{FitsWithin, retry-FitsWithin}

abbrev ask_timing : Call ℕ
ask_timing = record {
  stored = record { id = some "c1"; others = end };
  name = some "query_timing";
  arguments = none;
}

abbrev asking : Response ℕ
asking = record {
  choices =
      record {
        finish_reason = some "tool_calls";
        content = none;
        reasoning = none;
        calls = ask_timing ∷ [];
      }
      ∷ [];
  traced = true;
}

abbrev answering : Response ℕ
answering = record {
  choices =
      record {
        finish_reason = some "stop";
        content = some (codes "met");
        reasoning = none;
        calls = [];
      }
      ∷ [];
  traced = false;
}

-- The model asks for the timing, and answers once it was told.
abbrev turn : ℕ → Response ℕ
turn zero = asking
turn (suc w) = answering

-- A response is read off an outcome.
abbrev response_of : Outcome (Response ℕ) → Response ℕ
response_of (returned r) = r
response_of (raised message) = answering

abbrev sv : Services ℕ ℕ
sv = record {
  call_llm = λ mem w. (returned (turn w), w);
  execute = λ name args w. (returned (codes "slack 0.1"), suc w);
  search_cases = λ query w. (returned (str (codes query)), w);
  fresh_id = λ w. ("c9", w);
  loads = λ t. some (Value.obj end);
  show = λ v. codes "?";
  plain_dumps = λ v. codes "{}";
  floats = whole;
}

abbrev start : Conversation ℕ ℕ
start = record { memory = new_memory 0 8192; world = 0; events = [] }

-- The services of `sv`, in a world that also counts the calls of the model.
abbrev counted : Services ℕ (ℕ × ℕ)
counted = record {
  call_llm = λ mem w. (returned (turn w.0), (w.0, suc w.1));
  execute = λ name args w. (returned (codes "slack 0.1"), (suc w.0, w.1));
  search_cases = λ query w. (returned (str (codes query)), w);
  fresh_id = λ w. ("c9", w);
  loads = sv.loads;
  show = sv.show;
  plain_dumps = sv.plain_dumps;
  floats = whole;
}

abbrev counted_start : Conversation ℕ (ℕ × ℕ)
counted_start = record { memory = new_memory 0 8192; world = (0, 0); events = [] }

run-IsEnded_example : IsEnded (λ w. w.1) 3 counted_start (run counted 3 "timing?" counted_start)
run-IsEnded_example =
    run-IsEnded counted (λ w. w.1) 3 "timing?" counted_start
      (record {
        asks = λ mem w. refl;
        executes = λ name args w. refl;
        searches = λ query w. refl;
        names = λ w. refl;
      })

turn-HasIds : (w : ℕ) → All (HasIds sv) (turn w).choices
turn-HasIds zero = (("c1" ∷ [], (refl, refl, refl, tt)), tt)
turn-HasIds (suc w) = (([], tt), tt)

sv-NamesCalls : NamesCalls sv
sv-NamesCalls mem w r e = subst (λ q. All (HasIds sv) q.choices) (ap response_of e) (turn-HasIds w)

start-IsPaired : IsPaired start.memory.history
unfolding pending_from
start-IsPaired = refl

run-IsPaired_example : IsPaired (run sv 3 "timing?" start).1.memory.history
run-IsPaired_example = run-IsPaired sv sv-NamesCalls 3 "timing?" start refl start-IsPaired

few : entries (cache_of start.memory) ≤ 8
unfolding entries get eda_agent.Memory.Scratchpad.is_volatile eda_agent.Json.Dict.lookup
few = omega arith

refresh_twice_example :
    let once = (refresh_similar_cases sv start.memory "timing?" 0).0 in
    (entries (cache_of once) ≤ 8) × SameCases sv once 1 (refresh_similar_cases sv once "timing?" 1)
refresh_twice_example = refresh_twice sv start.memory "timing?" 0 1 few

abbrev team : Team ℕ
team = record {
  floats = whole;
  show = λ v. elim v [ str t ↦ t | _ ↦ codes "?" ];
  pnr = λ task. returned [];
  sta = λ task. raised "no run";
  signoff = λ task. returned [];
}

abbrev risky : Task ℕ
risky = record {
  objective = "close timing";
  run_id = some 7;
  constraints = [];
  inputs = ("risk_level", str (codes "high")) ∷ [];
  agents = [];
}

cycle_gate_example :
    let names = selected team risky.agents in
    let envelopes = dispatch_subagents team risky in
    ((apply_hitl_gate team (merge_agent_outputs envelopes)).blocked
      ≡ mem_str "experiment" names && is_high team (risk_level team risky))
    × (total (status_counts envelopes) ≡ length names)
cycle_gate_example = cycle_gate team risky (λ t. refl)

abbrev cfg : Config
cfg = record {
  backend = "openai";
  prompt_mode = false;
  system_prompt = codes "help";
  tools_appendix = [];
  max_tokens = 512;
  max_output_tokens = 256;
  input_max_tokens = 4096;
  timeout_retry_input_max_tokens = 0;
}

-- The first request of all times out.
abbrev net : Transport ℕ ℕ
net = record {
  send = λ payload w. elim w [ zero ↦ (timeout, 1) | suc v ↦ (response answering, suc (suc v)) ];
  send_stream = λ payload w. (raised "no stream", w);
  key_of = λ t. "?";
  trace_chat = λ messages r w. (r, w);
}

abbrev asked : Memory ℕ
asked = record (new_memory 0 8192) { history = plain user (codes "timing?") ∷ [] }

asked-IsPaired : IsPaired asked.history
unfolding pending_from
asked-IsPaired = refl

asked-reduces : reduces_context sv cfg net asked ≡ true
unfolding get eda_agent.Memory.Scratchpad.is_volatile eda_agent.Json.Dict.lookup
asked-reduces = refl

abbrev first : Payload ℕ
first = build_payload sv cfg net asked true (some 4096)

retry-FitsWithin_example :
    (again : Payload ℕ) × (post_chat_completion sv cfg net asked first 0
      ≡ after_retry sv cfg net (net.send again 1))
    × FitsWithin sv cfg net (retry_budget sv cfg net) asked again.messages
retry-FitsWithin_example =
    retry-FitsWithin sv cfg net asked first 0 refl asked-IsPaired ((refl, refl, refl), tt) refl
      asked-reduces
