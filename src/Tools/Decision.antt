-- ===== src/Tools/Decision.antt =====
-- When `check` blocks a call, when it only warns, and when it raises.
use eda_agent.Base.{
  String, ◌≡◌, refl, ap, ◌∙◌, Bool, true, false, not, ◌&&◌, ◌||◌, Option, none, some, List, [], ◌∷◌,
  ◌++◌, if◌then◌else◌, str_eq, mem_str, Text, arith, Bool-cases, inl, inr, sym, append_assoc,
  append-nil,
}
use eda_agent.Json.{Value}
use eda_agent.Json.Dict.{Dict, lookup}
use eda_agent.Tools.Guardrails.{
  Floats, GuardrailResult, Checked, passed, crashed, found, Policy, blocks, warns, is_safe,
  truthy_at, view, as_number, clean_reason, over_reason, range_warnings, warn_if_any, check_value,
  check_clean_flag, check_utilization,
}
use eda_agent.Tools.Check.{
  long_running, long_warning, cancel_warning, check_long_running, check_cancel, confirm_reason,
  policy_reason, policy_warning, check_custom_tool_policy, confirmed, checkers, verdict,
  run_checkers, check_after, policy_level, check,
}
use eda_agent.Tools.Steps.{
  policy_blocks, blocking_reason, policy_warnings, tool_warnings, step_block, step_crash, step_pass,
  step_warn, step_if,
}

module _ {F : Type 0} (fl : Floats F) where
  -- "clean" is set, or the params have a true "_clean".
  abbrev pub asks_clean : Dict (Value F) → Bool
  asks_clean args = truthy_at fl (lookup "clean" args) || elim (view fl args) [
    | none ↦ false
    | some none ↦ false
    | some (some params) ↦ truthy_at fl (lookup "_clean" params)
  ]

  -- The number that stands under "CORE_UTILIZATION" in the params.
  abbrev pub utilization : Dict (Value F) → Option F
  utilization args = elim (view fl args) [
    | none ↦ none
    | some none ↦ none
    | some (some params) ↦ elim (lookup "CORE_UTILIZATION" params) [
      | none ↦ none
      | some v ↦ as_number fl v
    ]
  ]

  abbrev pub is_over : Option F → Bool
  is_over none = false
  is_over (some x) = fl.above x 95

  abbrev pub utilization_warnings : Option F → List Text
  utilization_warnings none = []
  utilization_warnings (some x) = range_warnings fl x

  clean_cases :
      (args : Dict (Value F)) (v : Option (Dict (Value F)))
      → view fl args ≡ some v
      → check_clean_flag fl args ≡ (if asks_clean args then found (blocks clean_reason) else passed)
  unfolding check_clean_flag
  clean_cases args v e = ground arith

  util_cases :
      (args : Dict (Value F)) (v : Option (Dict (Value F)))
      → view fl args ≡ some v
      → check_utilization fl args
        ≡ elim (utilization args) [ none ↦ passed | some x ↦ check_value fl x ]
  unfolding check_utilization
  util_cases args v e = ground arith

  tail_lem :
      (name : String) (args : Dict (Value F)) (ws : List Text)
      → run_checkers name args ws ((λ n a. check_long_running n) ∷ (λ n a. check_cancel n) ∷ [])
        ≡ some (verdict (ws ++ tool_warnings name))
  unfolding run_checkers check_long_running check_cancel
  tail_lem name args ws =
      step_if name args (λ n a. check_long_running n) ((λ n a. check_cancel n) ∷ []) ws
        (mem_str name long_running) (long_warning name) refl
      ∙ step_if name args (λ n a. check_cancel n) [] _ (str_eq name "cancel_job") cancel_warning
          refl
      ∙ ap (λ l. some (verdict l)) (append_assoc ws _ _)

  step_any :
      (name : String) (args : Dict (Value F)) (c : String → Dict (Value F) → Checked)
      (cs : List (String → Dict (Value F) → Checked)) (ws new : List Text)
      → c name args ≡ warn_if_any fl new
      → run_checkers name args ws (c ∷ cs) ≡ run_checkers name args (ws ++ new) cs
  step_any name args c cs ws [] e =
      step_pass name args c cs ws e ∙ ap (λ l. run_checkers name args l cs) (sym (append-nil ws))
  step_any name args c cs ws (w ∷ new) e = step_warn name args c cs ws (w ∷ new) e

  -- What the checks of the number and of the name decide, after the warnings `ws`.
  abbrev pub measured : String → List Text → Option F → GuardrailResult
  measured name ws none = verdict (ws ++ tool_warnings name)
  measured name ws (some x) =
      if fl.above x 95
      then blocks (over_reason fl x)
      else verdict (ws ++ (range_warnings fl x ++ tool_warnings name))

  measured_lem :
      (name : String) (args : Dict (Value F)) (ws : List Text) (found_number : Option F)
      → check_utilization fl args ≡ elim found_number [ none ↦ passed | some x ↦ check_value fl x ]
      → run_checkers name args ws (
          (λ n a. check_utilization fl a)
          ∷ (λ n a. check_long_running n)
          ∷ (λ n a. check_cancel n)
          ∷ [])
        ≡ some (measured name ws found_number)
  unfolding check_value
  measured_lem name args ws none e = step_pass name args _ _ ws e ∙ tail_lem name args ws
  measured_lem name args ws (some x) e = elim (Bool-cases (fl.above x 95)) [
    | inl c ↦ step_block name args _ _ ws (over_reason fl x) (e ∙ rw c) ∙ rw c
    | inr c ↦
        step_any name args _ _ ws (range_warnings fl x) (e ∙ rw c)
        ∙ tail_lem name args (ws ++ range_warnings fl x)
        ∙ ap (λ l. some (verdict l)) (append_assoc ws _ _)
        ∙ rw c
  ]

  -- What the checks of the arguments decide, after the policy gave the warnings `ws`.
  abbrev pub decided : String → Dict (Value F) → List Text → GuardrailResult
  decided name args ws =
      if asks_clean args then blocks clean_reason else measured name ws (utilization args)

  run_lem :
      (name : String) (args : Dict (Value F)) (v : Option (Dict (Value F))) (ws : List Text)
      → view fl args ≡ some v
      → run_checkers name args ws (checkers fl) ≡ some (decided name args ws)
  run_lem name args v ws e = elim (Bool-cases (asks_clean args)) [
    | inl c ↦
        step_block name args _ _ ws clean_reason
          (clean_cases args v e ∙ ap (λ b. if b then found (blocks clean_reason) else passed) c)
        ∙ ap (λ b. some (if b then blocks clean_reason else measured name ws (utilization args)))
            (sym c)
    | inr c ↦
        step_pass name args _ _ ws
          (clean_cases args v e ∙ ap (λ b. if b then found (blocks clean_reason) else passed) c)
        ∙ measured_lem name args ws (utilization args) (util_cases args v e)
        ∙ ap (λ b. some (if b then blocks clean_reason else measured name ws (utilization args)))
            (sym c)
  ]

  -- What a policy gives, by what it needs and the two levels it may ask for.
  policy_cases :
      (name : String) (args : Dict (Value F)) (v : Option (Dict (Value F)))
      (needs is_block is_warn : Bool)
      → view fl args ≡ some v
      → check_after fl name args (
          if needs && true
          then some (blocks (confirm_reason name))
          else if is_block
          then some (blocks (policy_reason name))
          else if is_warn
          then some (warns (policy_warning name ∷ []))
          else none)
        ≡ some (
            if needs || is_block
            then blocks (if needs then confirm_reason name else policy_reason name)
            else decided name args (if is_warn then policy_warning name ∷ [] else []))
  policy_cases name args v true b w e = refl
  policy_cases name args v false true w e = refl
  policy_cases name args v false false true e = run_lem name args v (policy_warning name ∷ []) e
  policy_cases name args v false false false e = run_lem name args v [] e

  after_lem :
      (name : String) (args : Dict (Value F)) (v : Option (Dict (Value F))) (p : Option Policy)
      → view fl args ≡ some v
      → check_after fl name args (elim p [
        | none ↦ none
        | some q ↦
            if q.requires_confirmation && true
            then some (blocks (confirm_reason name))
            else policy_level name q.risk_level
      ])
        ≡ some (
            if policy_blocks p
            then blocks (blocking_reason name p)
            else decided name args (policy_warnings name p))
  after_lem name args v none e = run_lem name args v [] e
  after_lem name args v (some p) e =
      policy_cases name args v p.requires_confirmation (str_eq p.risk_level "block")
        (str_eq p.risk_level "warn") e

  -- For a call that is not confirmed, with params missing, falsy or a dict, check returns: it
  -- blocks with the policy's reason, else for clean, else for a utilization above 95, else it
  -- gives the warnings of policy, number and name in this order, at level WARN if there is one and
  -- SAFE if not.
  pub check_lem :
      (policies : Dict Policy) (name : String) (args : Dict (Value F)) (v : Option (Dict (Value F)))
      → confirmed fl args ≡ false
      → view fl args ≡ some v
      → check fl policies name args
        ≡ some (
            if policy_blocks (lookup name policies)
            then blocks (blocking_reason name (lookup name policies))
            else decided name args (policy_warnings name (lookup name policies)))
  unfolding check check_custom_tool_policy
  check_lem policies name args v nc e =
      ap
        (λ b.
          if b
          then some is_safe
          else check_after fl name args (check_custom_tool_policy fl policies name args))
        nc
      ∙ ap
          (λ b. check_after fl name args (elim (lookup name policies) [
            | none ↦ none
            | some q ↦
                if q.requires_confirmation && not b
                then some (blocks (confirm_reason name))
                else policy_level name q.risk_level
          ]))
          nc
      ∙ after_lem name args v (lookup name policies) e

  clean_crash :
      (args : Dict (Value F))
      → view fl args ≡ none
      → truthy_at fl (lookup "clean" args) ≡ false
      → check_clean_flag fl args ≡ crashed
  unfolding check_clean_flag
  clean_crash args e c = ground arith

  crash_lem :
      (name : String) (args : Dict (Value F)) (ws : List Text)
      → view fl args ≡ none
      → truthy_at fl (lookup "clean" args) ≡ false
      → run_checkers name args ws (checkers fl) ≡ none
  crash_lem name args ws e c =
      step_crash name args (λ n a. check_clean_flag fl a) _ ws (clean_crash args e c)

  crash_policy :
      (name : String) (args : Dict (Value F)) (needs is_block is_warn : Bool)
      → view fl args ≡ none
      → truthy_at fl (lookup "clean" args) ≡ false
      → needs || is_block ≡ false
      → check_after fl name args (
          if needs && true
          then some (blocks (confirm_reason name))
          else if is_block
          then some (blocks (policy_reason name))
          else if is_warn
          then some (warns (policy_warning name ∷ []))
          else none)
        ≡ none
  crash_policy name args false false true e c n = crash_lem name args (policy_warning name ∷ []) e c
  crash_policy name args false false false e c n = crash_lem name args [] e c
  crash_policy name args false true w e c n = ground arith
  crash_policy name args true b w e c n = ground arith

  crash_cases :
      (name : String) (args : Dict (Value F)) (p : Option Policy)
      → view fl args ≡ none
      → truthy_at fl (lookup "clean" args) ≡ false
      → policy_blocks p ≡ false
      → check_after fl name args (elim p [
        | none ↦ none
        | some q ↦
            if q.requires_confirmation && true
            then some (blocks (confirm_reason name))
            else policy_level name q.risk_level
      ])
        ≡ none
  crash_cases name args none e c n = crash_lem name args [] e c
  crash_cases name args (some p) e c n =
      crash_policy name args p.requires_confirmation (str_eq p.risk_level "block")
        (str_eq p.risk_level "warn") e c n

  -- If the call is neither confirmed nor blocked by its policy, `clean` is not set, and its "params"
  -- are a true value that is no dict, then `check` raises.
  pub check-raises :
      (policies : Dict Policy) (name : String) (args : Dict (Value F))
      → confirmed fl args ≡ false
      → view fl args ≡ none
      → truthy_at fl (lookup "clean" args) ≡ false
      → policy_blocks (lookup name policies) ≡ false
      → check fl policies name args ≡ none
  unfolding check check_custom_tool_policy
  check-raises policies name args nc e c n =
      ap
        (λ b.
          if b
          then some is_safe
          else check_after fl name args (check_custom_tool_policy fl policies name args))
        nc
      ∙ ap
          (λ b. check_after fl name args (elim (lookup name policies) [
            | none ↦ none
            | some q ↦
                if q.requires_confirmation && not b
                then some (blocks (confirm_reason name))
                else policy_level name q.risk_level
          ]))
          nc
      ∙ crash_cases name args (lookup name policies) e c n
