-- ===== src/Tools/Steps.antt =====
-- One checker after another: what each of them does to the run of the checks.
use eda_agent.Base.{
  String, ◌≡◌, ap, ◌∙◌, Bool, true, false, ◌||◌, Option, none, some, List, [], ◌∷◌, ◌++◌,
  if◌then◌else◌, str_eq, mem_str, Text, sym, append-nil,
}
use eda_agent.Json.{Value}
use eda_agent.Json.Dict.{Dict}
use eda_agent.Tools.Guardrails.{Checked, passed, crashed, found, Policy, blocks, warns}
use eda_agent.Tools.Check.{
  long_running, long_warning, cancel_warning, confirm_reason, policy_reason, policy_warning,
  run_checkers,
}

-- What the policy of a custom tool asks for, when the call is not confirmed.
abbrev pub policy_blocks : Option Policy → Bool
policy_blocks none = false
policy_blocks (some p) = p.requires_confirmation || str_eq p.risk_level "block"

abbrev pub blocking_reason : String → Option Policy → Text
blocking_reason name none = []
blocking_reason name (some p) =
    if p.requires_confirmation then confirm_reason name else policy_reason name

abbrev pub policy_warnings : String → Option Policy → List Text
policy_warnings name none = []
policy_warnings name (some p) = if str_eq p.risk_level "warn" then policy_warning name ∷ [] else []

abbrev pub tool_warnings : String → List Text
tool_warnings name =
    (if mem_str name long_running then long_warning name ∷ [] else [])
    ++ (if str_eq name "cancel_job" then cancel_warning ∷ [] else [])

module _ {F : Type 0} (name : String) (args : Dict (Value F)) where
  pub step_block :
      (c : String → Dict (Value F) → Checked) (cs : List (String → Dict (Value F) → Checked))
      (ws : List Text) (reason : Text)
      → c name args ≡ found (blocks reason)
      → run_checkers name args ws (c ∷ cs) ≡ some (blocks reason)
  unfolding run_checkers
  step_block c cs ws reason e = rw e

  pub step_crash :
      (c : String → Dict (Value F) → Checked) (cs : List (String → Dict (Value F) → Checked))
      (ws : List Text)
      → c name args ≡ crashed
      → run_checkers name args ws (c ∷ cs) ≡ none
  unfolding run_checkers
  step_crash c cs ws e = rw e

  pub step_pass :
      (c : String → Dict (Value F) → Checked) (cs : List (String → Dict (Value F) → Checked))
      (ws : List Text)
      → c name args ≡ passed
      → run_checkers name args ws (c ∷ cs) ≡ run_checkers name args ws cs
  unfolding run_checkers
  step_pass c cs ws e = rw e

  pub step_warn :
      (c : String → Dict (Value F) → Checked) (cs : List (String → Dict (Value F) → Checked))
      (ws new : List Text)
      → c name args ≡ found (warns new)
      → run_checkers name args ws (c ∷ cs) ≡ run_checkers name args (ws ++ new) cs
  unfolding run_checkers
  step_warn c cs ws new e = rw e

  pub step_if :
      (c : String → Dict (Value F) → Checked) (cs : List (String → Dict (Value F) → Checked))
      (ws : List Text) (b : Bool) (w : Text)
      → c name args ≡ (if b then found (warns (w ∷ [])) else passed)
      → run_checkers name args ws (c ∷ cs)
        ≡ run_checkers name args (ws ++ (if b then w ∷ [] else [])) cs
  step_if c cs ws true w e = step_warn c cs ws (w ∷ []) e
  step_if c cs ws false w e =
      step_pass c cs ws e ∙ ap (λ l. run_checkers name args l cs) (sym (append-nil ws))
