-- ===== src/CustomTools/Trust.antt =====
-- What the loaders let in: names that are allowed and new, and policies that are known.
use eda_agent.Base.{String, ◌≡◌, refl, ap, subst, ◌⊎◌, inl, Option, none, some, Text, arith}
use eda_agent.Json.{Value}
use eda_agent.Json.Value.{null, bool, int, negint, float, str, arr, obj}
use eda_agent.Json.Dict.{lookup}
use eda_agent.Memory.Scratchpad.{as_dict}
use eda_agent.Tools.Guardrails.{Policy}
use eda_agent.CustomTools.Spec.{
  Loading, loaded, config_error, other_error, and_then, or_config_error, known_risk, policy_of,
  risk_of, confirmation_of, validate_permissions,
}

pub or_config_error-inv {ℓ} :
    {A : Type ℓ} (o : Option A) {a : A} → or_config_error o ≡ loaded a → o ≡ some a
or_config_error-inv none e = grind (arith, e)
or_config_error-inv (some b) e = ap some (grind (arith, e))

pub and_then-inv {ℓ κ} :
    {A : Type ℓ} {B : Type κ} (r : Loading A) {next : A → Loading B} {b : B}
    → and_then r next ≡ loaded b
    → (a : A) × (r ≡ loaded a) × (next a ≡ loaded b)
unfolding and_then
and_then-inv (loaded a) e = (a, refl, e)
and_then-inv config_error e = grind (arith, e)
and_then-inv other_error e = grind (arith, e)

-- The loaded value, or another one.
abbrev loaded_or {ℓ} : {A : Type ℓ} → A → Loading A → A
loaded_or other (loaded a) = a
loaded_or other config_error = other
loaded_or other other_error = other

pub loaded-inj {ℓ} : {A : Type ℓ} {a b : A} → loaded a ≡ loaded b → a ≡ b
loaded-inj {a = a} e = ap (loaded_or a) e

-- One of the levels that the guardrails know.
abbrev pub IsKnown : Policy → Type 0
IsKnown p = (p.risk_level ≡ "safe") ⊎ ((p.risk_level ≡ "warn") ⊎ (p.risk_level ≡ "block"))

abbrev IsLevel : String → Type 0
IsLevel s = (s ≡ "safe") ⊎ ((s ≡ "warn") ⊎ (s ≡ "block"))

known_risk-IsLevel : (t : Text) (s : String) → known_risk t ≡ some s → IsLevel s
known_risk-IsLevel t s e = grind (arith, e)

module _ {F : Type 0} where
  risk_of-IsLevel : (v : Option (Value F)) (s : String) → risk_of v ≡ loaded s → IsLevel s
  risk_of-IsLevel none s e = grind (arith, e)
  risk_of-IsLevel (some (str t)) s e = known_risk-IsLevel t s (or_config_error-inv (known_risk t) e)
  risk_of-IsLevel (some null) s e = grind (arith, e)
  risk_of-IsLevel (some (bool b)) s e = grind (arith, e)
  risk_of-IsLevel (some (int n)) s e = grind (arith, e)
  risk_of-IsLevel (some (negint n)) s e = grind (arith, e)
  risk_of-IsLevel (some (float x)) s e = grind (arith, e)
  risk_of-IsLevel (some (arr vs)) s e = grind (arith, e)
  risk_of-IsLevel (some (obj fs)) s e = grind (arith, e)

  policy_of-IsKnown : (v : Value F) (p : Policy) → policy_of v ≡ loaded p → IsKnown p
  policy_of-IsKnown v p e =
      let (d, ed, e1) = and_then-inv (or_config_error (as_dict (some v))) e in
      let (risk, er, e2) = and_then-inv (risk_of (lookup "risk_level" d)) e1 in
      let (c, ec, e3) = and_then-inv (confirmation_of (lookup "requires_confirmation" d)) e2 in
      let level = risk_of-IsLevel (lookup "risk_level" d) risk er in
      subst IsKnown (loaded-inj e3) level

  pub validate_permissions-IsKnown :
      (raw : Option (Value F)) (p : Policy) → validate_permissions raw ≡ loaded p → IsKnown p
  unfolding validate_permissions
  validate_permissions-IsKnown none p e = subst IsKnown (loaded-inj e) (inl refl)
  validate_permissions-IsKnown (some null) p e = subst IsKnown (loaded-inj e) (inl refl)
  validate_permissions-IsKnown (some v) p e = policy_of-IsKnown v p e
