-- ===== src/Params/Examples.antt =====
-- Two parameters, of which one requires the other.
use eda_agent.Base.{ℕ, ◌≡◌, String, false, all_of, [], ◌∷◌, codes, text_eq}
use eda_agent.Json.{Value}
use eda_agent.Json.Value.{str}
use eda_agent.Json.Dict.{Dict, lookup}
use eda_agent.Params.Mapper.{ParameterSpec, ParamMapper, validate_params}
use eda_agent.Params.Validity.{suits, validate_params_lem}

abbrev effort : ParameterSpec ℕ
effort = record {
  sample_values = str (codes "high") ∷ [];
  base_value = str (codes "auto");
  stage = "prects";
  flow_stages = [];
  dependencies = "design_flow_effort" ∷ [];
  conflicts = [];
}

abbrev mapper : ParamMapper ℕ
mapper = record {
  params =
      ("place_cong_effort", effort)
      ∷ ("design_flow_effort", record effort { dependencies = [] })
      ∷ [];
  stage_aliases = [];
  same = λ a b. elim a [ str s ↦ elim b [ str t ↦ text_eq s t | _ ↦ false ] | _ ↦ false ];
  show = λ v. [];
  show_all = λ vs. [];
}

abbrev chosen : Dict (Value ℕ)
chosen = ("place_cong_effort", str (codes "high")) ∷ []

validate_params_lem_example :
    (validate_params mapper chosen).0
    ≡ all_of (λ (p : String × Value ℕ). suits mapper chosen p.1 (lookup p.0 mapper.params)) chosen
validate_params_lem_example = validate_params_lem mapper chosen
