-- ===== src/Tools/Check.antt =====
-- agent/guardrails.py: the policies of custom tools, the checks by tool name, and `check`.
use eda_agent.Base.{
  String, Bool, not, ◌&&◌, Option, none, some, List, [], ◌∷◌, ◌++◌, if◌then◌else◌, str_eq, mem_str,
  Text, codes,
}
use eda_agent.Json.{Value}
use eda_agent.Json.Dict.{Dict, lookup}
use eda_agent.Tools.Guardrails.{
  Floats, safe, warn, block, GuardrailResult, Checked, passed, crashed, found, Policy, blocks,
  warns, is_safe, truthy_at, check_clean_flag, check_utilization,
}

abbrev pub long_running : List String
long_running = "tune_ppa" ∷ "tune_ppa_multistage" ∷ "tune_congestion_with_blockage" ∷ []

abbrev pub long_warning : String → Text
long_warning name = codes name ++ codes " 将自动运行多轮 EDA flow，可能耗时数小时并占用大量计算资源。"

abbrev pub cancel_warning : Text
cancel_warning = codes "cancel_job 将中止正在运行的任务，操作不可逆。"

unfoldable pub check_long_running : String → Checked
check_long_running name =
    if mem_str name long_running then found (warns (long_warning name ∷ [])) else passed

unfoldable pub check_cancel : String → Checked
check_cancel name = if str_eq name "cancel_job" then found (warns (cancel_warning ∷ [])) else passed

-- `_CUSTOM_TOOL_POLICIES` after `register_custom_tool_policies`: the new policies alone.
unfoldable pub register_custom_tool_policies : Dict Policy → Dict Policy → Dict Policy
register_custom_tool_policies old policies = policies

abbrev pub confirm_reason : String → Text
confirm_reason name = codes "自定义工具 " ++ (codes name ++ codes " 需要显式确认后才能执行。请先确认风险。")

abbrev pub policy_reason : String → Text
policy_reason name = codes "自定义工具 " ++ (codes name ++ codes " 当前策略为 BLOCK。如需执行，请先调整权限策略。")

abbrev pub policy_warning : String → Text
policy_warning name = codes "自定义工具 " ++ (codes name ++ codes " 按策略标记为高风险，请谨慎执行。")

abbrev pub policy_level : String → String → Option GuardrailResult
policy_level name level =
    if str_eq level "block"
    then some (blocks (policy_reason name))
    else if str_eq level "warn"
    then some (warns (policy_warning name ∷ []))
    else none

abbrev pub verdict : List Text → GuardrailResult
verdict [] = is_safe
verdict (w ∷ ws) = warns (w ∷ ws)

module _ {F : Type 0} where
  -- The loop over the checkers, with the warnings so far; `none` is an exception.
  unfoldable pub run_checkers :
      String
      → Dict (Value F)
      → List Text
      → List (String → Dict (Value F) → Checked)
      → Option GuardrailResult
  run_checkers name args warnings [] = some (verdict warnings)
  run_checkers name args warnings (c ∷ cs) = elim (c name args) [
    | crashed ↦ none
    | passed ↦ run_checkers name args warnings cs
    | found r ↦ elim r.level [
      | block ↦ some r
      | warn ↦ run_checkers name args (warnings ++ r.warnings) cs
      | safe ↦ run_checkers name args warnings cs
    ]
  ]

module _ {F : Type 0} (fl : Floats F) where
  abbrev pub confirmed : Dict (Value F) → Bool
  confirmed args = truthy_at fl (lookup "_guardrail_confirmed" args)

  unfoldable pub check_custom_tool_policy :
      Dict Policy → String → Dict (Value F) → Option GuardrailResult
  unfolding lookup
  check_custom_tool_policy policies name args = elim (lookup name policies) [
    | none ↦ none
    | some p ↦
        if p.requires_confirmation && not (confirmed args)
        then some (blocks (confirm_reason name))
        else policy_level name p.risk_level
  ]

  -- `_CHECKERS`, in its order.
  abbrev pub checkers : List (String → Dict (Value F) → Checked)
  checkers =
      (λ name args. check_clean_flag fl args)
      ∷ (λ name args. check_utilization fl args)
      ∷ (λ name args. check_long_running name)
      ∷ (λ name args. check_cancel name)
      ∷ []

  abbrev pub check_after : String → Dict (Value F) → Option GuardrailResult → Option GuardrailResult
  check_after name args none = run_checkers name args [] checkers
  check_after name args (some policy) = elim policy.level [
    | block ↦ some policy
    | warn ↦ run_checkers name args policy.warnings checkers
    | safe ↦ run_checkers name args [] checkers
  ]

  unfoldable pub check : Dict Policy → String → Dict (Value F) → Option GuardrailResult
  unfolding lookup check_custom_tool_policy run_checkers
  check policies name args =
      if confirmed args
      then some is_safe
      else check_after name args (check_custom_tool_policy policies name args)
