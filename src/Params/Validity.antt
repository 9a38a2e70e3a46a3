-- ===== src/Params/Validity.antt =====
-- When a choice of values is valid.
use eda_agent.Base.{
  String, ◌≡◌, refl, ap, ap₂, ◌∙◌, Bool, true, false, not, ◌&&◌, ◌||◌, Option, none, some, List, [],
  ◌∷◌, ◌++◌, any_of, all_of, if◌then◌else◌, Text,
}
use eda_agent.Json.{Value}
use eda_agent.Json.Dict.{Dict, lookup}
use eda_agent.Params.Mapper.{
  ParameterSpec, ParamMapper, has_key, is_empty, is_compatible, value_errors, dependency_errors,
  conflict_errors, spec_errors, errors_from, validate_params,
}

is_empty-append : (a b : List Text) → is_empty (a ++ b) ≡ (is_empty a && is_empty b)
is_empty-append [] b = refl
is_empty-append (t ∷ a) b = refl

module _ {F : Type 0} (mapper : ParamMapper F) where
  -- A value that the specification has as a sample, with all that it requires and nothing that it
  -- conflicts with.
  abbrev pub suits : Dict (Value F) → Value F → Option (ParameterSpec F) → Bool
  suits params value none = false
  suits params value (some spec) =
      any_of (mapper.same value) spec.sample_values
      && (all_of (λ d. has_key d params) spec.dependencies && is_compatible spec params)

  no_value_error : (b : Bool) (t : Text) → is_empty (if b then [] else t ∷ []) ≡ b
  no_value_error true t = refl
  no_value_error false t = refl

  no_more :
      (b : Bool) (t : Text) (ts : List Text)
      → is_empty (if b then ts else t ∷ ts) ≡ (b && is_empty ts)
  no_more true t ts = refl
  no_more false t ts = refl

  no_fewer :
      (b : Bool) (t : Text) (ts : List Text)
      → is_empty (if b then t ∷ ts else ts) ≡ (not b && is_empty ts)
  no_fewer true t ts = refl
  no_fewer false t ts = refl

  is_empty-dependency_errors :
      (params : Dict (Value F)) (name : String) (deps : List String)
      → is_empty (dependency_errors mapper params name deps) ≡ all_of (λ d. has_key d params) deps
  is_empty-dependency_errors params name [] = refl
  is_empty-dependency_errors params name (dep ∷ deps) =
      no_more (has_key dep params) _ (dependency_errors mapper params name deps)
      ∙ ap (λ b. has_key dep params && b) (is_empty-dependency_errors params name deps)

  not_or : (a b : Bool) → (not a && not b) ≡ not (a || b)
  not_or true b = refl
  not_or false b = refl

  is_empty-conflict_errors :
      (params : Dict (Value F)) (name : String) (cs : List String)
      → is_empty (conflict_errors mapper params name cs) ≡ not (any_of (λ c. has_key c params) cs)
  is_empty-conflict_errors params name [] = refl
  is_empty-conflict_errors params name (c ∷ cs) =
      no_fewer (has_key c params) _ (conflict_errors mapper params name cs)
      ∙ ap (λ b. not (has_key c params) && b) (is_empty-conflict_errors params name cs)
      ∙ not_or (has_key c params) (any_of (λ d. has_key d params) cs)

  is_empty-spec_errors :
      (params : Dict (Value F)) (name : String) (value : Value F) (o : Option (ParameterSpec F))
      → is_empty (spec_errors mapper params name value o) ≡ suits params value o
  unfolding is_compatible
  is_empty-spec_errors params name value none = refl
  is_empty-spec_errors params name value (some spec) =
      is_empty-append (value_errors mapper name spec value) _
      ∙ ap₂ (λ a b. a && b) (no_value_error (any_of (mapper.same value) spec.sample_values) _)
          (is_empty-append (dependency_errors mapper params name spec.dependencies) _
            ∙ ap₂ (λ a b. a && b) (is_empty-dependency_errors params name spec.dependencies)
                (is_empty-conflict_errors params name spec.conflicts))

  is_empty-errors_from :
      (params rest : Dict (Value F))
      → is_empty (errors_from mapper params rest)
        ≡ all_of (λ (p : String × Value F). suits params p.1 (lookup p.0 mapper.params)) rest
  is_empty-errors_from params [] = refl
  is_empty-errors_from params ((name, value) ∷ rest) =
      is_empty-append (spec_errors mapper params name value (lookup name mapper.params))
        (errors_from mapper params rest)
      ∙ ap₂ (λ a b. a && b) (is_empty-spec_errors params name value (lookup name mapper.params))
          (is_empty-errors_from params rest)

  -- A choice of values is valid exactly when each of its parameters is known, has a sample value,
  -- has all the parameters that it requires beside it, and is compatible with the choice.
  pub validate_params_lem :
      (params : Dict (Value F))
      → (validate_params mapper params).0
        ≡ all_of (λ (p : String × Value F). suits params p.1 (lookup p.0 mapper.params)) params
  unfolding validate_params
  validate_params_lem params = is_empty-errors_from params params
