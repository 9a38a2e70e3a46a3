-- ===== src/Tools/Examples.antt =====
-- Concrete calls of tools, with whole numbers in the place of floats.
use eda_agent.Base.{
  ℕ, suc, ◌+◌, ◌-◌, ◌*◌, ◌≡◌, refl, Option, none, some, [], ◌∷◌, map, true, false, not, ◌&&◌, codes,
  Text, ltb, leb, ◌==◌, is_some, all_of, if◌then◌else◌, returned, raised,
}
use eda_agent.Json.{Value}
use eda_agent.Json.Value.{bool, int, str, obj}
use eda_agent.Json.Fields.{end, field}
use eda_agent.Json.Dict.{Dict, lookup, insert}
use eda_agent.Json.Dumps.{decimal}
use eda_agent.Tools.Guardrails.{Floats, as_number}
use eda_agent.Tools.Check.{check}
use eda_agent.Tools.Decision.{decided, check_lem, check-raises}
use eda_agent.Tools.Steps.{policy_warnings}
use eda_agent.Tools.Calls.{summarize_arguments}
use eda_agent.Tools.Execute.{Tool, Registry, execute_tool}
use eda_agent.Tools.Execution.{
  IsQuiet, IsRun, execute_tool-is_risky, execute_tool-runs, execute_tool-is_some,
  execute_tool-raises, execute_tool-same,
}
use eda_agent.Tools.Summaries.{is_short, summarize_arguments-is_short}

-- The digits of a number that has nothing else in its text.
unfoldable pub digits : ℕ → Text → Option ℕ
digits acc [] = some acc
digits acc (c ∷ cs) =
    let rest = digits (10 * acc + c - 48) cs in if leb 48 c && leb c 57 then rest else none

abbrev pub whole : Floats ℕ
whole = record {
  parse = digits 0;
  repr = decimal;
  nonzero = λ x. not (x == 0);
  above = λ x n. ltb n x;
  below = λ x n. ltb x n;
}

-- The tool counts its calls, and fails without a stage.
abbrev pub counting : Tool ℕ ℕ
counting args w =
    (if is_some (lookup "stage" args) then returned (int w) else raised "no stage", suc w)

abbrev registry : Registry ℕ ℕ
registry = record {
  dispatch = ("submit_job", counting) ∷ ("drc_fix", counting) ∷ [];
  custom_names = "drc_fix" ∷ [];
  sources = [];
  policies = ("drc_fix", record { risk_level = "warn"; requires_confirmation = false }) ∷ [];
}

abbrev dense : Dict (Value ℕ)
dense = ("params", obj (field "CORE_UTILIZATION" (int 97) end)) ∷ []

abbrev dense_params : Dict (Value ℕ)
dense_params = ("CORE_UTILIZATION", int 97) ∷ []

abbrev bad : Dict (Value ℕ)
bad = ("params", str (codes "fast")) ∷ []

check_lem_example :
    check whole registry.policies "drc_fix" []
    ≡ some (
        decided whole "drc_fix" [] (policy_warnings "drc_fix" (lookup "drc_fix" registry.policies)))
unfolding lookup
check_lem_example = check_lem whole registry.policies "drc_fix" [] none refl refl

check-raises_example : check whole registry.policies "drc_fix" bad ≡ none
unfolding lookup
check-raises_example = check-raises whole registry.policies "drc_fix" bad refl refl refl refl

summarize_arguments-is_short_example :
    (all_of (λ entry. is_short entry.1) (summarize_arguments (λ v. codes "{}") dense) ≡ true)
    × (map (λ entry. entry.0) (summarize_arguments (λ v. codes "{}") dense) ≡ "params" ∷ [])
summarize_arguments-is_short_example = summarize_arguments-is_short (λ v. codes "{}") dense

execute_tool-is_risky_example :
    IsQuiet whole
      (λ v. [])
      (λ row. true)
      registry
      0
      []
      (execute_tool whole (λ v. []) (λ row. true) registry "submit_job" dense 0 [])
unfolding lookup insert as_number digits decimal
execute_tool-is_risky_example =
    execute_tool-is_risky whole (λ v. []) (λ row. true) registry "submit_job" dense 0 []
      (some dense_params) refl refl refl

execute_tool-runs_example :
    IsRun whole
      (λ v. [])
      (λ row. true)
      registry
      "drc_fix"
      []
      0
      []
      counting
      (execute_tool whole (λ v. []) (λ row. true) registry "drc_fix" [] 0 [])
unfolding lookup
execute_tool-runs_example =
    execute_tool-runs whole (λ v. []) (λ row. true) registry "drc_fix" [] 0 [] none counting refl
      refl refl refl

execute_tool-is_some_example :
    is_some (execute_tool whole (λ v. []) (λ row. true) registry "drc_fix" dense 0 []).answer ≡ true
unfolding lookup insert
execute_tool-is_some_example =
    execute_tool-is_some whole (λ v. []) (λ row. true) registry "drc_fix" dense 0 []
      (some dense_params) refl

execute_tool-raises_example :
    execute_tool whole (λ v. []) (λ row. true) registry "submit_job" bad 0 []
    ≡ record { answer = none; world = 0; audit = [] }
unfolding lookup
execute_tool-raises_example =
    execute_tool-raises whole (λ v. []) (λ row. true) registry "submit_job" bad 0 [] counting refl
      refl refl refl refl

-- A tool that would look at the flag.
abbrev peeking : Tool ℕ ℕ
peeking args w =
    if is_some (lookup "_guardrail_confirmed" args) then (raised "seen", w) else counting args w

peeking_same :
    (seen : Dict (Value ℕ)) (u : ℕ)
    → lookup "_guardrail_confirmed" seen ≡ none
    → peeking seen u ≡ counting seen u
peeking_same seen u e = rw e

execute_tool-same_example :
    execute_tool whole
      (λ v. [])
      (λ row. true)
      (record registry { dispatch = insert "drc_fix" peeking registry.dispatch })
      "drc_fix"
      (("_guardrail_confirmed", bool true) ∷ [])
      0
      []
    ≡ execute_tool whole
        (λ v. [])
        (λ row. true)
        registry
        "drc_fix"
        (("_guardrail_confirmed", bool true) ∷ [])
        0
        []
unfolding lookup
execute_tool-same_example =
    execute_tool-same whole (λ v. []) (λ row. true) registry "drc_fix"
      (("_guardrail_confirmed", bool true) ∷ []) 0 [] counting peeking refl peeking_same
