-- ===== src/Params/Mapper.antt =====
-- agent/param_mapper.py: parameters by stage, and the validation of a choice of values. The catalogue
-- is an argument; Python's == on values and the texts of values are parameters.
use eda_agent.Base.{
  String, Bool, true, false, not, ◌||◌, Option, none, some, List, [], ◌∷◌, ◌++◌, keep_if, any_of,
  if◌then◌else◌, str_eq, mem_str, is_some, Text, codes,
}
use eda_agent.Json.{Value}
use eda_agent.Json.Dict.{Dict, lookup}

-- `ParameterSpec`, without its texts and impacts.
pub record ParameterSpec (F : Type 0) : Type 0 where
  pub sample_values : List (Value F)
  pub base_value : Value F
  pub stage : String
  pub flow_stages : List String
  pub dependencies : List String
  pub conflicts : List String

-- `InnovusParamMapper`, with the two functions on values that it uses.
pub record ParamMapper (F : Type 0) : Type 0 where
  pub params : Dict (ParameterSpec F)
  pub stage_aliases : Dict (List String)
  pub same : Value F → Value F → Bool
  pub show : Value F → Text
  pub show_all : List (Value F) → Text

-- name in params
abbrev pub has_key : {V : Type 0} → String → Dict V → Bool
has_key name params = is_some (lookup name params)

abbrev pub is_empty : List Text → Bool
is_empty [] = true
is_empty (t ∷ ts) = false

module _ {F : Type 0} where
  unfoldable pub is_compatible : ParameterSpec F → Dict (Value F) → Bool
  unfolding lookup
  is_compatible spec params = not (any_of (λ c. has_key c params) spec.conflicts)

module _ {F : Type 0} (mapper : ParamMapper F) where
  unfoldable pub get_stage_params : String → Dict (ParameterSpec F)
  get_stage_params stage =
      keep_if (λ (p : String × ParameterSpec F). str_eq p.1.stage stage) mapper.params

  unfoldable pub get_flow_stage_params : String → Dict (ParameterSpec F)
  unfolding lookup
  get_flow_stage_params flow_stage = elim (lookup flow_stage mapper.stage_aliases) [
    | none ↦ []
    | some aliases ↦
        keep_if
          (λ (p : String × ParameterSpec F).
            mem_str p.1.stage aliases || mem_str flow_stage p.1.flow_stages)
          mapper.params
  ]

  abbrev pub unknown_error : String → Text
  unknown_error name = codes "Unknown parameter: " ++ codes name

  abbrev pub value_errors : String → ParameterSpec F → Value F → List Text
  value_errors name spec value =
      if any_of (mapper.same value) spec.sample_values
      then []
      else (codes name
          ++ (codes ": value "
              ++ (mapper.show value
                  ++ (codes " not in sample_values " ++ mapper.show_all spec.sample_values))))
        ∷ []

  abbrev pub dependency_errors : Dict (Value F) → String → List String → List Text
  dependency_errors params name [] = []
  dependency_errors params name (dep ∷ deps) =
      let rest = dependency_errors params name deps in
      if has_key dep params then rest else (codes name ++ (codes " requires " ++ codes dep)) ∷ rest

  abbrev pub conflict_errors : Dict (Value F) → String → List String → List Text
  conflict_errors params name [] = []
  conflict_errors params name (c ∷ cs) =
      let rest = conflict_errors params name cs in
      if has_key c params
      then (codes name ++ (codes " conflicts with " ++ codes c)) ∷ rest
      else rest

  abbrev pub spec_errors : Dict (Value F) → String → Value F → Option (ParameterSpec F) → List Text
  spec_errors params name value none = unknown_error name ∷ []
  spec_errors params name value (some spec) =
      value_errors name spec value
      ++ (dependency_errors params name spec.dependencies
          ++ conflict_errors params name spec.conflicts)

  -- The loop, over the parameters that are left.
  abbrev pub errors_from : Dict (Value F) → Dict (Value F) → List Text
  errors_from params [] = []
  errors_from params ((name, value) ∷ rest) =
      spec_errors params name value (lookup name mapper.params) ++ errors_from params rest

  unfoldable pub validate_params : Dict (Value F) → Bool × List Text
  unfolding lookup
  validate_params params = let errors = errors_from params params in (is_empty errors, errors)
