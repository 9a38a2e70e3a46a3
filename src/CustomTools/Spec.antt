-- ===== src/CustomTools/Spec.antt =====
-- agent/custom_tools.py: the checks of one specification. `config_error` is CustomToolConfigError;
-- `other_error` is any other exception: the TypeError of a set that is asked for a list or a dict,
-- and what reading the file raises.
use eda_agent.Base.{
  ℕ, suc, String, Bool, true, false, not, ◌&&◌, Option, none, some, List, [], ◌∷◌, if◌then◌else◌,
  Text, codes, text_eq, mem_str, min, or_else,
}
use eda_agent.Json.{Value, Items, Fields}
use eda_agent.Json.Value.{null, bool, int, str, arr, obj}
use eda_agent.Json.Items.{nil, cons}
use eda_agent.Json.Dict.{lookup}
use eda_agent.Memory.Scratchpad.{as_dict}
use eda_agent.Tools.Guardrails.{Policy}

pub data Loading {ℓ} (A : Type ℓ) : Type ℓ where
  loaded : A → Loading A
  config_error other_error : Loading A

unfoldable pub and_then {ℓ κ} : {A : Type ℓ} {B : Type κ} → Loading A → (A → Loading B) → Loading B
and_then (loaded a) next = next a
and_then config_error next = config_error
and_then other_error next = other_error

abbrev pub or_config_error {ℓ} : {A : Type ℓ} → Option A → Loading A
or_config_error (some a) = loaded a
or_config_error none = config_error

-- The lists are sets, and [] stands for None too.
pub record Rules : Type 0 where
  pub reserved : List String
  pub allowlist : List String
  pub denylist : List String

abbrev pub is_allowed : String → List String → Bool
is_allowed name [] = true
is_allowed name (a ∷ allowed) = mem_str name (a ∷ allowed)

abbrev pub should_include_tool : Rules → String → Bool
should_include_tool rules name =
    not (mem_str name rules.denylist) && is_allowed name rules.allowlist

abbrev pub known_risk : Text → Option String
known_risk t =
    if text_eq t (codes "safe")
    then some "safe"
    else if text_eq t (codes "warn")
    then some "warn"
    else if text_eq t (codes "block")
    then some "block"
    else none

abbrev pub default_policy : Policy
default_policy = record { risk_level = "safe"; requires_confirmation = false }

module _ {F : Type 0} where
  -- The texts of a list that has only texts.
  abbrev pub text_items : Items F → Option (List Text)
  text_items nil = some []
  text_items (cons (str t) vs) = elim (text_items vs) [ none ↦ none | some ts ↦ some (t ∷ ts) ]
  text_items (cons v vs) = none

  abbrev pub text_list : Value F → Option (List Text)
  text_list (arr vs) = text_items vs
  text_list v = none

  abbrev pub is_object_type : Option (Value F) → Bool
  is_object_type (some (str t)) = text_eq t (codes "object")
  is_object_type v = false

  abbrev pub properties_of : Option (Value F) → Option (Fields F)
  properties_of (some (obj fs)) = some fs
  properties_of v = none

  -- The properties and the names that are required.
  unfoldable pub validate_parameters_schema : Option (Value F) → Loading (Fields F × List Text)
  unfolding lookup text_eq
  validate_parameters_schema raw = and_then (or_config_error (as_dict raw)) (λ d.
      if is_object_type (lookup "type" d)
      then and_then (or_config_error (properties_of (lookup "properties" d))) (λ properties.
        and_then (or_config_error (text_list (or_else (lookup "required" d) (arr nil))))
          (λ required. loaded (properties, required)))
      else config_error)

  -- What is no text is in no set of texts, and a list or a dict cannot be looked for.
  abbrev pub risk_of : Option (Value F) → Loading String
  risk_of none = loaded "safe"
  risk_of (some (str t)) = or_config_error (known_risk t)
  risk_of (some (arr vs)) = other_error
  risk_of (some (obj fs)) = other_error
  risk_of (some v) = config_error

  abbrev pub confirmation_of : Option (Value F) → Loading Bool
  confirmation_of none = loaded false
  confirmation_of (some (bool b)) = loaded b
  confirmation_of (some v) = config_error

  abbrev pub policy_of : Value F → Loading Policy
  policy_of v = and_then (or_config_error (as_dict (some v))) (λ d.
      and_then (risk_of (lookup "risk_level" d)) (λ risk.
        and_then (confirmation_of (lookup "requires_confirmation" d)) (λ confirmation.
          loaded (record { risk_level = risk; requires_confirmation = confirmation }))))

  unfoldable pub validate_permissions : Option (Value F) → Loading Policy
  unfolding lookup text_eq
  validate_permissions none = loaded default_policy
  validate_permissions (some null) = loaded default_policy
  validate_permissions (some v) = policy_of v

  -- True counts as 1.
  abbrev pub timeout_of : Option (Value F) → Option ℕ
  timeout_of none = some 30
  timeout_of (some (int (suc n))) = some (min (suc n) 600)
  timeout_of (some (bool true)) = some 1
  timeout_of (some v) = none

  abbrev pub command_of : Option (Value F) → Option (List Text)
  command_of none = none
  command_of (some v) = elim (text_list v) [
    | none ↦ none
    | some ts ↦ elim ts [ [] ↦ none | t ∷ others ↦ some (t ∷ others) ]
  ]
