-- ===== src/Planner/Agents.antt =====
-- agent/subagents and the methods of agent/planner.py for a cycle of sub-agents. What the agents that
-- read the database put out is a parameter, with an exception as `raised`; `ExperimentAgent` is whole.
use eda_agent.Base.{
  ℕ, ◌+◌, String, Bool, true, false, ◌||◌, Option, none, some, List, [], ◌∷◌, ◌++◌, map,
  if◌then◌else◌, str_eq, Text, codes, text_eq, or_else, Outcome, returned, raised,
}
use eda_agent.Json.{Value}
use eda_agent.Json.Value.{bool, str}
use eda_agent.Json.Dict.{Dict, lookup, insert}
use eda_agent.Tools.Guardrails.{Floats, truthy_at}

pub data AgentStatus : Type 0 where
  ok needs_approval error : AgentStatus

abbrev pub is_error : AgentStatus → Bool
is_error ok = false
is_error needs_approval = false
is_error error = true

-- `AgentEnvelope`, without the fields that are copied from the task.
pub record Envelope (F : Type 0) : Type 0 where
  pub agent : String
  pub outputs : Dict (Value F)
  pub status : AgentStatus
  pub error_text : Text

pub record Task (F : Type 0) : Type 0 where
  pub objective : String
  pub run_id : Option ℕ
  pub constraints : Dict (Value F)
  pub inputs : Dict (Value F)
  pub agents : List String

-- The outputs of the other agents, and `str`.
pub record Team (F : Type 0) : Type 0 where
  pub floats : Floats F
  pub show : Value F → Text
  pub pnr : Task F → Outcome (Dict (Value F))
  pub sta : Task F → Outcome (Dict (Value F))
  pub signoff : Task F → Outcome (Dict (Value F))

pub record AgentOutput (F : Type 0) : Type 0 where
  pub status : AgentStatus
  pub outputs : Dict (Value F)
  pub error_text : Text

pub record Merged (F : Type 0) : Type 0 where
  pub by_agent : Dict (AgentOutput F)
  pub has_error : Bool

pub record StatusCounts : Type 0 where
  pub oks : ℕ
  pub approvals : ℕ
  pub errors : ℕ

pub record HitlGate : Type 0 where
  pub blocked : Bool
  pub status : String
  pub reason : String

abbrev pub count_one : AgentStatus → StatusCounts → StatusCounts
count_one ok c = record c { oks = 1 + c.oks }
count_one needs_approval c = record c { approvals = 1 + c.approvals }
count_one error c = record c { errors = 1 + c.errors }

module _ {F : Type 0} where
  abbrev pub error_result : String → Text → Envelope F
  error_result name message = record {
    agent = name;
    outputs = [];
    status = error;
    error_text = message;
  }

  abbrev pub agent_result : String → Outcome (Dict (Value F)) → Envelope F
  agent_result name (raised message) = error_result name (codes message)
  agent_result name (returned out) = record {
    agent = name;
    outputs = out;
    status = ok;
    error_text = [];
  }

  unfoldable pub status_counts : List (Envelope F) → StatusCounts
  status_counts [] = record { oks = 0; approvals = 0; errors = 0 }
  status_counts (e ∷ es) = count_one e.status (status_counts es)

  abbrev pub output_of : Envelope F → AgentOutput F
  output_of e = record { status = e.status; outputs = e.outputs; error_text = e.error_text }

  -- The loop of `_merge_agent_outputs`, from what is merged so far.
  unfoldable pub merge_onto : Merged F → List (Envelope F) → Merged F
  unfolding insert
  merge_onto m [] = m
  merge_onto m (e ∷ es) =
      merge_onto
        (record {
          by_agent = insert e.agent (output_of e) m.by_agent;
          has_error = is_error e.status || m.has_error;
        })
        es

  unfoldable pub merge_agent_outputs : List (Envelope F) → Merged F
  unfolding merge_onto
  merge_agent_outputs envelopes = merge_onto (record { by_agent = []; has_error = false }) envelopes

module _ {F : Type 0} (team : Team F) where
  abbrev pub first_true : Option (Value F) → Text → Text
  first_true none other = other
  first_true (some v) other = if truthy_at team.floats (some v) then team.show v else other

  -- str(inputs.get("risk_level") or constraints.get("risk_level") or "low")
  unfoldable pub risk_level : Task F → Text
  unfolding lookup
  risk_level task =
      first_true (lookup "risk_level" task.inputs)
        (first_true (lookup "risk_level" task.constraints) (codes "low"))

  abbrev pub is_high : Text → Bool
  is_high risk = text_eq risk (codes "high")

  -- `ExperimentAgent.run`
  unfoldable pub run_experiment : Task F → Envelope F
  unfolding risk_level lookup text_eq
  run_experiment task =
      let risk = risk_level task in
      record {
        agent = "experiment";
        outputs =
            (
              "next_action",
              or_else (lookup "next_action" task.inputs) (str (codes "propose_experiment")),
            )
            ∷ ("risk_level", str risk)
            ∷ ("requires_approval", bool (is_high risk))
            ∷ ("note", str (codes "Experiment planning skeleton active"))
            ∷ [];
        status = if is_high risk then needs_approval else ok;
        error_text = [];
      }

  abbrev pub run_agent : Task F → String → Envelope F
  run_agent task name =
      if str_eq name "pnr"
      then agent_result "pnr" (team.pnr task)
      else if str_eq name "sta"
      then agent_result "sta" (team.sta task)
      else if str_eq name "signoff"
      then agent_result "signoff" (team.signoff task)
      else if str_eq name "experiment"
      then run_experiment task
      else error_result name (codes "Unknown sub-agent '" ++ (codes name ++ codes "'"))

  abbrev pub selected : List String → List String
  selected [] = "pnr" ∷ "sta" ∷ "signoff" ∷ "experiment" ∷ []
  selected (a ∷ others) = a ∷ others

  unfoldable pub dispatch_subagents : Task F → List (Envelope F)
  unfolding run_experiment
  dispatch_subagents task = map (run_agent task) (selected task.agents)

  abbrev pub outputs_of : Option (AgentOutput F) → Dict (Value F)
  outputs_of none = []
  outputs_of (some o) = o.outputs

  abbrev pub gate_for : Bool → HitlGate
  gate_for true = record {
    blocked = true;
    status = "needs_approval";
    reason = "high risk experiment";
  }
  gate_for false = record { blocked = false; status = "auto_execute"; reason = "" }

  abbrev pub shown : Option (Value F) → Text → Text
  shown none other = other
  shown (some v) other = team.show v

  unfoldable pub apply_hitl_gate : Merged F → HitlGate
  unfolding lookup text_eq
  apply_hitl_gate merged =
      let out = outputs_of (lookup "experiment" merged.by_agent) in
      gate_for (
        truthy_at team.floats (lookup "requires_approval" out)
        || is_high (shown (lookup "risk_level" out) (codes "low")))
