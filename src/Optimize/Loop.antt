-- ===== src/Optimize/Loop.antt =====
-- `OptimizationLoop.orchestrate`. The inference engine, the stage runner, the check of the target, the
-- confirmation, the decision trace and the reading of numbers are parameters that change a world `W`;
-- a call of theirs that raises leaves the loop, and is left out here. An inference id that is missing
-- or negative is `none`, and a hint that is missing or no dict is empty.
use eda_agent.Base.{
  ℕ, zero, suc, String, Bool, true, false, not, ◌&&◌, ◌||◌, Option, none, some, List, [], ◌∷◌, ◌++◌,
  if◌then◌else◌, str_eq, Text, codes, length, any_of, or_else, ltb, ◌==◌,
}
use eda_agent.Json.{Value}
use eda_agent.Json.Value.{str}
use eda_agent.Json.Dict.{Dict, insert}

pub record Experiment (F : Type 0) : Type 0 where
  pub action : Option String
  pub risk : Option String
  pub param_hint : Dict (Value F)

pub record Hypothesis (F : Type 0) : Type 0 where
  pub cause_id : String
  pub display_name : Option String
  pub score : Option F
  pub experiments : List (Experiment F)

pub record Inference (F : Type 0) : Type 0 where
  pub inference_id : Option ℕ
  pub run_id : Option ℕ
  pub hypotheses : List (Hypothesis F)

pub record StageRun : Type 0 where
  pub run_id : Option ℕ
  pub status : Option String

-- What `_select_experiment` returns.
pub record Selected (F : Type 0) : Type 0 where
  pub cause_id : String
  pub display_name : String
  pub action : String
  pub risk : String
  pub param_hint : Dict (Value F)

pub record IterationRecord (F : Type 0) : Type 0 where
  pub iteration : ℕ
  pub inference_id : Option ℕ
  pub cause_id : String
  pub cause_display_name : String
  pub experiment_action : String
  pub experiment_risk : String
  pub params_applied : Dict (Value F)
  pub new_run_id : Option ℕ
  pub new_run_status : String
  pub converged : Bool
  pub target_met : Bool
  pub score_dropped : Bool

pub record Env (F W : Type 0) : Type 0 where
  pub infer : ℕ → Text → W → Inference F × W
  pub run_stage : Dict (Value F) → ℕ → ℕ → Option ℕ → W → StageRun × W
  pub check_target : ℕ → Text → W → Bool × W
  pub confirm : ℕ → String → W → W
  pub record_trace : Inference F → IterationRecord F → W → W
  pub zero_score : F
  pub below_threshold : F → Bool
  pub to_number : Text → Option (Value F)

module _ {F : Type 0} where
  abbrev pub is_low : Experiment F → Bool
  is_low e = elim e.risk [ none ↦ false | some r ↦ str_eq r "low" ]

  unfoldable pub first_low : List (Experiment F) → Option (Experiment F)
  first_low [] = none
  first_low (e ∷ es) = if is_low e then some e else first_low es

  abbrev pub selected_as : Hypothesis F → Experiment F → String → Selected F
  selected_as top e risk = record {
    cause_id = top.cause_id;
    display_name = or_else top.display_name "";
    action = or_else e.action "";
    risk = risk;
    param_hint = e.param_hint;
  }

  -- The loop over the experiments, and the fallback to the first.
  abbrev pub pick : Hypothesis F → List (Experiment F) → Option (Selected F)
  pick top [] = none
  pick top (e ∷ es) = elim (first_low (e ∷ es)) [
    | some low ↦ some (selected_as top low "low")
    | none ↦ some (selected_as top e (or_else e.risk "unknown"))
  ]

  unfoldable pub select_experiment : List (Hypothesis F) → Option (Selected F)
  unfolding first_low
  select_experiment [] = none
  select_experiment (top ∷ rest) = pick top top.experiments

  -- {**first, **second}
  unfoldable pub merge : Dict (Value F) → Dict (Value F) → Dict (Value F)
  unfolding insert
  merge first [] = first
  merge first ((k, v) ∷ second) = merge (insert k v first) second

  abbrev pub top_cause : List (Hypothesis F) → String
  top_cause [] = ""
  top_cause (top ∷ rest) = top.cause_id

  abbrev pub top_name : List (Hypothesis F) → String
  top_name [] = ""
  top_name (top ∷ rest) = or_else top.display_name ""

  -- `self.history and not self.history[-1].converged`
  unfoldable pub is_open : List (IterationRecord F) → Bool
  is_open [] = false
  is_open (r ∷ []) = not r.converged
  is_open (r ∷ s ∷ rs) = is_open (s ∷ rs)

abbrev pub succeeded : String → Bool
succeeded status = str_eq status "success"

module _ {F W : Type 0} (env : Env F W) (target_spec : Text) (base_params : Dict (Value F)) where
  -- A text that reads as a number becomes one.
  abbrev pub convert : Value F → Value F
  convert (str s) = or_else (env.to_number s) (str s)
  convert v = v

  unfoldable pub experiment_to_params : Dict (Value F) → Dict (Value F)
  experiment_to_params [] = []
  experiment_to_params ((k, v) ∷ hint) = (k, convert v) ∷ experiment_to_params hint

  unfoldable pub score_dropped_below_threshold : List (Hypothesis F) → Bool
  score_dropped_below_threshold [] = true
  score_dropped_below_threshold (top ∷ rest) =
      env.below_threshold (or_else top.score env.zero_score)

  abbrev pub after_text : String → Text
  after_text action = codes "after experiment '" ++ (codes action ++ (codes "': " ++ target_spec))

  -- Step 4: infer again on a new run that succeeded.
  abbrev pub verify : Selected F → Option ℕ → String → W → Bool × W
  verify e none status w = (false, w)
  verify e (some i) status w = elim (succeeded status) [
    | false ↦ (false, w)
    | true ↦
        let (again, w') = env.infer i (after_text e.action) w in
        (score_dropped_below_threshold again.hypotheses, w')
  ]

  -- Step 5: a run id of 0 counts as none here.
  abbrev pub target_check : Option ℕ → String → W → Bool × W
  target_check none status w = (false, w)
  target_check (some i) status w = elim (not (i == 0) && succeeded status) [
    | false ↦ (false, w)
    | true ↦ env.check_target i target_spec w
  ]

  -- What a round leaves: its record, the run to go on with (`none` is a break), and the world.
  pub record Round : Type 0 where
    pub entry : IterationRecord F
    pub onward : Option ℕ
    pub world : W

  abbrev pub skipped : ℕ → Inference F → IterationRecord F
  skipped iteration found = record {
    iteration = iteration;
    inference_id = found.inference_id;
    cause_id = top_cause found.hypotheses;
    cause_display_name = top_name found.hypotheses;
    experiment_action = "";
    experiment_risk = "";
    params_applied = [];
    new_run_id = none;
    new_run_status = "skipped";
    converged = false;
    target_met = false;
    score_dropped = false;
  }

  abbrev pub recorded :
      ℕ
      → Inference F
      → Selected F
      → Dict (Value F)
      → Option ℕ
      → String
      → Bool
      → Bool
      → IterationRecord F
  recorded iteration found e params run status met dropped = record {
    iteration = iteration;
    inference_id = found.inference_id;
    cause_id = top_cause found.hypotheses;
    cause_display_name = top_name found.hypotheses;
    experiment_action = e.action;
    experiment_risk = e.risk;
    params_applied = params;
    new_run_id = run;
    new_run_status = status;
    converged = met || dropped;
    target_met = met;
    score_dropped = dropped;
  }

  abbrev pub traced : Inference F → IterationRecord F → W → W
  traced found rec w = elim rec.new_run_id [ none ↦ w | some i ↦ env.record_trace found rec w ]

  abbrev pub confirm_cause : Option ℕ → String → W → W
  confirm_cause none cause w = w
  confirm_cause (some i) cause w = if ltb 0 i then env.confirm i cause w else w

  -- Steps 3 to 6, with the chosen experiment.
  abbrev pub try_experiment : ℕ → ℕ → Inference F → Selected F → W → Round
  try_experiment iteration current found e w =
      let params = experiment_to_params e.param_hint in
      let (ran, w1) =
        env.run_stage (merge base_params params) current iteration found.inference_id w in
      let status = or_else ran.status "failed" in
      let (dropped, w2) = verify e ran.run_id status w1 in
      let (met, w3) = target_check ran.run_id status w2 in
      let rec = recorded iteration found e params ran.run_id status met dropped in
      let w4 = traced found rec w3 in
      elim (met || dropped) [
        | true ↦ record {
          entry = rec;
          onward = none;
          world = confirm_cause found.inference_id e.cause_id w4;
        }
        | false ↦ record { entry = rec; onward = some (or_else ran.run_id current); world = w4 }
      ]

  unfoldable pub round : ℕ → ℕ → W → Round
  unfolding select_experiment experiment_to_params merge score_dropped_below_threshold
  round iteration current w =
      let (found, w') = env.infer current target_spec w in
      elim (select_experiment found.hypotheses) [
        | none ↦ record { entry = skipped iteration found; onward = none; world = w' }
        | some e ↦ try_experiment iteration current found e w'
      ]

  -- The while loop with `left` iterations to go: the run, the history and the world after it.
  unfoldable pub loop : ℕ → ℕ → ℕ → List (IterationRecord F) → W → ℕ × List (IterationRecord F) × W
  loop zero iteration current history w = (current, history, w)
  loop (suc left) iteration current history w =
      let r = round (suc iteration) current w in
      elim r.onward [
        | none ↦ (current, history ++ r.entry ∷ [], r.world)
        | some run ↦ loop left (suc iteration) run (history ++ r.entry ∷ []) r.world
      ]

  pub record Report : Type 0 where
    pub converged : Bool
    pub iterations_run : ℕ
    pub inference_cycle : List (IterationRecord F)
    pub final_inference : Option (Inference F)

  abbrev pub final_step : ℕ → List (IterationRecord F) → W → Option (Inference F) × W
  final_step current history w = elim (is_open history) [
    | false ↦ (none, w)
    | true ↦ let (found, w') = env.infer current target_spec w in (some found, w')
  ]

  -- The object's history is an argument and a result: it outlives the call.
  unfoldable pub orchestrate :
      ℕ → ℕ → List (IterationRecord F) → W → Report × List (IterationRecord F) × W
  unfolding loop is_open
  orchestrate max_iterations run_id history w =
      let (current, history', w') = loop max_iterations 0 run_id history w in
      let (last, w'') = final_step current history' w' in
      (
        record {
          converged = any_of (λ r. r.converged) history';
          iterations_run = length history';
          inference_cycle = history';
          final_inference = last;
        },
        history',
        w'',
      )
