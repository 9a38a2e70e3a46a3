-- ===== src/Optimize/Examples.antt =====
-- A loop on a world that counts its runs; the second run meets the target.
use eda_agent.Base.{ℕ, suc, ◌≡◌, not, none, some, [], ◌∷◌, codes, leb, ltb, is_some}
use eda_agent.Optimize.Loop.{Experiment, Hypothesis, Env, select_experiment, orchestrate}
use eda_agent.Optimize.Bounds.{Adds, orchestrate-Adds, orchestrate-fresh}
use eda_agent.Optimize.Choice.{ChoiceOutcome, select_experiment_lem}

abbrev bold : Experiment ℕ
bold = record { action = some "shrink"; risk = some "high"; param_hint = [] }

abbrev careful : Experiment ℕ
careful = record { action = some "spread"; risk = some "low"; param_hint = [] }

abbrev congested : Hypothesis ℕ
congested = record {
  cause_id = "congestion";
  display_name = none;
  score = some 9;
  experiments = bold ∷ careful ∷ [];
}

abbrev counted : Env ℕ ℕ
counted = record {
  infer = λ run symptoms w.
      (record { inference_id = some 4; run_id = some run; hypotheses = congested ∷ [] }, w);
  run_stage = λ params prev iteration inference w.
      (record { run_id = some (suc w); status = some "success" }, suc w);
  check_target = λ run spec w. (leb 2 w, w);
  confirm = λ i cause w. w;
  record_trace = λ found rec w. w;
  zero_score = 0;
  below_threshold = λ s. ltb s 3;
  to_number = λ t. none;
}

orchestrate-Adds_example :
    Adds counted (codes "WNS >= 0") [] 5 0 [] (orchestrate counted (codes "WNS >= 0") [] 5 1 [] 0).1
orchestrate-Adds_example = orchestrate-Adds counted (codes "WNS >= 0") [] 5 1 [] 0

orchestrate-fresh_example :
    let report = (orchestrate counted (codes "WNS >= 0") [] 1 1 [] 0).0 in
    is_some report.final_inference ≡ not report.converged
orchestrate-fresh_example = orchestrate-fresh counted (codes "WNS >= 0") [] 0 1 0

select_experiment_lem_example : ChoiceOutcome congested (select_experiment (congested ∷ []))
select_experiment_lem_example = select_experiment_lem congested []
