-- ===== src/Planner/Gate.antt =====
-- The gate and the counts of a cycle of sub-agents.
use eda_agent.Base.{
  ℕ, ◌+◌, String, ◌≡◌, refl, sym, ap, subst, ◌∙◌, Bool, true, false, ◌||◌, ◌&&◌, Option, none, some,
  List, [], ◌∷◌, map, if◌then◌else◌, str_eq, mem_str, eq_iff, Text, codes, length, arith,
  Bool-cases, inl, inr, Outcome, returned, raised,
}
use eda_agent.Json.{Value}
use eda_agent.Json.Value.{str}
use eda_agent.Json.Dict.{Dict, lookup, insert, lookup-insert}
use eda_agent.Tools.Guardrails.{truthy_at}
use eda_agent.Planner.Agents.{
  AgentStatus, ok, needs_approval, error, is_error, Envelope, Task, Team, AgentOutput, Merged,
  StatusCounts, count_one, agent_result, status_counts, output_of, merge_onto, merge_agent_outputs,
  risk_level, is_high, run_experiment, run_agent, selected, dispatch_subagents, outputs_of, shown,
  gate_for, apply_hitl_gate,
}

abbrev pub total : StatusCounts → ℕ
total c = c.oks + c.approvals + c.errors

total-count_one : (s : AgentStatus) (c : StatusCounts) → total (count_one s c) ≡ total c + 1
total-count_one ok c = omega arith
total-count_one needs_approval c = omega arith
total-count_one error c = omega arith

module _ {F : Type 0} where
  agent-agent_result :
      (name : String) (o : Outcome (Dict (Value F))) → (agent_result name o).agent ≡ name
  agent-agent_result name (raised m) = refl
  agent-agent_result name (returned d) = refl

  total-status_counts : (es : List (Envelope F)) → total (status_counts es) ≡ length es
  unfolding status_counts
  total-status_counts [] = refl
  total-status_counts (e ∷ es) =
      omega (arith, total-count_one e.status (status_counts es), total-status_counts es)

module _ {F : Type 0} (team : Team F) (task : Task F) where
  run_agent-experiment : run_agent team task "experiment" ≡ run_experiment team task
  run_agent-experiment = refl

  agent-run_agent : (name : String) → (run_agent team task name).agent ≡ name
  unfolding run_experiment
  agent-run_agent name = ground (
    arith,
    eq_iff name "pnr",
    eq_iff name "sta",
    eq_iff name "signoff",
    eq_iff name "experiment",
    agent-agent_result "pnr" (team.pnr task),
    agent-agent_result "sta" (team.sta task),
    agent-agent_result "signoff" (team.signoff task),
  )

  abbrev after_one : Bool → Option (AgentOutput F) → Option (AgentOutput F)
  after_one b o = if b then some (output_of (run_experiment team task)) else o

  after_both :
      (a b : Bool) (o : Option (AgentOutput F)) → after_one b (after_one a o) ≡ after_one (a || b) o
  after_both true true o = refl
  after_both true false o = refl
  after_both false b o = refl

  lookup-one :
      (name : String) (d : Dict (AgentOutput F))
      → lookup "experiment"
          (insert (run_agent team task name).agent (output_of (run_agent team task name)) d)
        ≡ after_one (str_eq name "experiment") (lookup "experiment" d)
  unfolding run_experiment
  lookup-one name d =
      let e = run_agent team task name in
      let read = lookup-insert e.agent "experiment" (output_of e) d in
      elim (Bool-cases (str_eq name "experiment")) [
        | inl q ↦
            subst
              (λ k.
                lookup "experiment"
                  (insert (run_agent team task k).agent (output_of (run_agent team task k)) d)
                ≡ after_one (str_eq k "experiment") (lookup "experiment" d))
              (sym ((eq_iff name "experiment").0 q))
              (lookup-insert "experiment" "experiment" (output_of (run_experiment team task)) d)
        | inr q ↦
            read
            ∙ ap (λ a. if str_eq a "experiment" then some (output_of e) else lookup "experiment" d)
                (agent-run_agent name)
            ∙ ap (λ b. if b then some (output_of e) else lookup "experiment" d) q
            ∙ ap (λ b. after_one b (lookup "experiment" d)) (sym q)
      ]

  lookup-merged :
      (m : Merged F) (names : List String)
      → lookup "experiment" (merge_onto m (map (run_agent team task) names)).by_agent
        ≡ after_one (mem_str "experiment" names) (lookup "experiment" m.by_agent)
  unfolding merge_onto
  lookup-merged m [] = refl
  lookup-merged m (n ∷ ns) =
      let e = run_agent team task n in
      let m' : Merged F = record {
        by_agent = insert e.agent (output_of e) m.by_agent;
        has_error = is_error e.status || m.has_error;
      } in
      lookup-merged m' ns
      ∙ ap (after_one (mem_str "experiment" ns)) (lookup-one n m.by_agent)
      ∙ after_both (str_eq n "experiment") (mem_str "experiment" ns)
          (lookup "experiment" m.by_agent)

  length-map_agents :
      (names : List String) → length (map (run_agent team task) names) ≡ length names
  length-map_agents [] = refl
  length-map_agents (n ∷ ns) = omega (arith, length-map_agents ns)

  gate-blocked : (b : Bool) → (gate_for team b).blocked ≡ b
  gate-blocked true = refl
  gate-blocked false = refl

  or_same : (b : Bool) → (b || b) ≡ b
  or_same true = refl
  or_same false = refl

  gate_input :
      ((t : Text) → team.show (str t) ≡ t)
      → (b : Bool)
      → let out = outputs_of team (after_one b none) in
        (truthy_at team.floats (lookup "requires_approval" out)
          || is_high team (shown team (lookup "risk_level" out) (codes "low")))
        ≡ (b && is_high team (risk_level team task))
  unfolding run_experiment lookup
  gate_input show_text true =
      let risk = risk_level team task in
      ap (λ t. is_high team risk || is_high team t) (show_text risk) ∙ or_same (is_high team risk)
  gate_input show_text false = refl

  -- If a text is shown as itself, a cycle of sub-agents is blocked exactly when the experiment
  -- agent is selected and the risk of the task is high, whatever the other agents do, and its
  -- status counts add up to the number of the selected agents.
  pub cycle_gate :
      ((t : Text) → team.show (str t) ≡ t)
      → let names = selected team task.agents in
        let envelopes = dispatch_subagents team task in
        ((apply_hitl_gate team (merge_agent_outputs envelopes)).blocked
          ≡ mem_str "experiment" names && is_high team (risk_level team task))
        × (total (status_counts envelopes) ≡ length names)
  unfolding dispatch_subagents merge_agent_outputs apply_hitl_gate lookup
  cycle_gate show_text =
      let names = selected team task.agents in
      let b = mem_str "experiment" names in
      (
        gate-blocked _
            ∙ ap
                (λ o.
                  truthy_at team.floats (lookup "requires_approval" (outputs_of team o))
                  || is_high team
                      (shown team (lookup "risk_level" (outputs_of team o)) (codes "low")))
                (lookup-merged (record { by_agent = []; has_error = false }) names)
            ∙ gate_input show_text b,
        total-status_counts (map (run_agent team task) names) ∙ length-map_agents names,
      )
