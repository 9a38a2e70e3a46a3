-- ===== src/CustomTools/Checks.antt =====
-- When the checks of one specification return.
use eda_agent.Base.{
  Bool, true, false, ◌≡◌, refl, subst, Option, none, some, List, Text, arith, if◌then◌else◌,
  or_else,
}
use eda_agent.Json.{Value, Items, Fields}
use eda_agent.Json.Value.{null, bool, int, negint, float, str, arr, obj}
use eda_agent.Json.Items.{nil, cons}
use eda_agent.Json.Dict.{lookup}
use eda_agent.Memory.Scratchpad.{as_dict}
use eda_agent.CustomTools.Spec.{
  Loading, loaded, config_error, other_error, and_then, or_config_error, text_list, properties_of,
  is_object_type, known_risk, risk_of, confirmation_of, policy_of, validate_parameters_schema,
  validate_permissions,
}
use eda_agent.CustomTools.Trust.{or_config_error-inv}

-- A value or a configuration error.
abbrev pub Returns {ℓ} : {A : Type ℓ} → Loading A → Type 0
Returns (loaded a) = Unit
Returns config_error = Unit
Returns other_error = ⊥

or_config_error-Returns {ℓ} : {A : Type ℓ} (o : Option A) → Returns (or_config_error o)
or_config_error-Returns (some a) = tt
or_config_error-Returns none = tt

pub and_then-Returns {ℓ κ} :
    {A : Type ℓ} {B : Type κ} (r : Loading A) (next : A → Loading B)
    → Returns r
    → ((a : A) → r ≡ loaded a → Returns (next a))
    → Returns (and_then r next)
unfolding and_then
and_then-Returns (loaded a) next h k = k a refl
and_then-Returns config_error next h k = tt
and_then-Returns other_error next h k = elim h [ ]

pub and_then_option-Returns {ℓ κ} :
    {A : Type ℓ} {B : Type κ} (o : Option A) (next : A → Loading B)
    → ((a : A) → o ≡ some a → Returns (next a))
    → Returns (and_then (or_config_error o) next)
and_then_option-Returns o next k =
    and_then-Returns (or_config_error o) next (or_config_error-Returns o)
      (λ a e. k a (or_config_error-inv o e))

module _ {F : Type 0} where
  abbrev pub is_plain : Option (Value F) → Bool
  is_plain (some (arr vs)) = false
  is_plain (some (obj fs)) = false
  is_plain v = true

  -- The permissions have no list and no dict for a risk level.
  abbrev pub plain_risk : Option (Value F) → Bool
  plain_risk raw = elim (as_dict raw) [ none ↦ true | some d ↦ is_plain (lookup "risk_level" d) ]

  abbrev pub permissions_of : Value F → Option (Value F)
  permissions_of item = elim (as_dict (some item)) [ none ↦ none | some d ↦ lookup "permissions" d ]

  abbrev pub PlainItems : Items F → Type 0
  PlainItems nil = Unit
  PlainItems (cons item items) = (plain_risk (permissions_of item) ≡ true) × PlainItems items

  risk_of-Returns : (v : Option (Value F)) → is_plain v ≡ true → Returns (risk_of v)
  risk_of-Returns none h = tt
  risk_of-Returns (some (str t)) h = or_config_error-Returns (known_risk t)
  risk_of-Returns (some null) h = tt
  risk_of-Returns (some (bool b)) h = tt
  risk_of-Returns (some (int n)) h = tt
  risk_of-Returns (some (negint n)) h = tt
  risk_of-Returns (some (float x)) h = tt
  risk_of-Returns (some (arr vs)) h = grind (arith, h)
  risk_of-Returns (some (obj fs)) h = grind (arith, h)

  confirmation_of-Returns : (v : Option (Value F)) → Returns (confirmation_of v)
  confirmation_of-Returns none = tt
  confirmation_of-Returns (some (bool b)) = tt
  confirmation_of-Returns (some null) = tt
  confirmation_of-Returns (some (str t)) = tt
  confirmation_of-Returns (some (int n)) = tt
  confirmation_of-Returns (some (negint n)) = tt
  confirmation_of-Returns (some (float x)) = tt
  confirmation_of-Returns (some (arr vs)) = tt
  confirmation_of-Returns (some (obj fs)) = tt

  policy_of-Returns : (v : Value F) → plain_risk (some v) ≡ true → Returns (policy_of v)
  policy_of-Returns v h = and_then_option-Returns (as_dict (some v)) _ (λ d e.
      and_then-Returns (risk_of (lookup "risk_level" d)) _
        (risk_of-Returns (lookup "risk_level" d) (
          subst
            (λ o.
              elim o as (λ x. Bool) [
                | none ↦ true
                | some found ↦ is_plain (lookup "risk_level" found)
              ]
              ≡ true)
            e h))
        (λ risk _.
          and_then-Returns (confirmation_of (lookup "requires_confirmation" d)) _
            (confirmation_of-Returns (lookup "requires_confirmation" d)) (λ c _. tt)))

  pub validate_permissions-Returns :
      (raw : Option (Value F)) → plain_risk raw ≡ true → Returns (validate_permissions raw)
  unfolding validate_permissions
  validate_permissions-Returns none h = tt
  validate_permissions-Returns (some null) h = tt
  validate_permissions-Returns (some v) h = policy_of-Returns v h

  parameters_if-Returns :
      (b : Bool) (r : Loading (Fields F × List Text))
      → Returns r
      → Returns (if b then r else config_error)
  parameters_if-Returns true r h = h
  parameters_if-Returns false r h = tt

  pub validate_parameters-Returns :
      (raw : Option (Value F)) → Returns (validate_parameters_schema raw)
  unfolding validate_parameters_schema
  validate_parameters-Returns raw = and_then_option-Returns (as_dict raw) _ (λ d e.
      parameters_if-Returns (is_object_type (lookup "type" d)) _ (
        and_then_option-Returns (properties_of (lookup "properties" d)) _ (λ ps _.
          and_then_option-Returns (text_list (or_else (lookup "required" d) (arr nil))) _
            (λ ts _. tt))))
