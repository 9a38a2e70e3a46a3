-- ===== src/Tools/Execution.antt =====
-- What `execute_tool` promises: risky calls run nothing, the flag of the guardrails stays inside, and
-- the audit table gets a row of each custom call that the database takes.
use eda_agent.Base.{
  ◌+◌, String, ◌≡◌, refl, sym, ap, subst, ◌∙◌, Bool, true, false, ◌||◌, ◌&&◌, Option, none, some,
  List, [], ◌∷◌, ◌++◌, if◌then◌else◌, str_eq_refl, mem_str, Text, length, length-append, Bool-cases,
  inl, inr, is_some, Outcome,
}
use eda_agent.Json.{Value}
use eda_agent.Json.Dict.{Dict, lookup, insert, lookup-insert}
use eda_agent.Tools.Guardrails.{
  Floats, GuardrailResult, is_blocked, is_safe, truthy_at, view, blocks, over_reason,
}
use eda_agent.Tools.Check.{check, confirmed, verdict}
use eda_agent.Tools.Decision.{asks_clean, is_over, utilization, check_lem, check-raises, measured}
use eda_agent.Tools.Steps.{policy_blocks, tool_warnings}
use eda_agent.Tools.Calls.{without_flag, blocked_response, AuditRow}
use eda_agent.Tools.Execute.{
  Tool, Registry, Ran, execute_tool, after_check, row_of, new_rows, says, after_lookup, after_tool,
}
use eda_agent.Tools.Summaries.{lookup-without_flag}

length-if :
    {A : Type 0} (rows : List A) (a b : Bool) (row : A)
    → length (rows ++ (if a then if b then row ∷ [] else [] else []))
      ≡ length rows + (if a && b then 1 else 0)
length-if rows true true row = length-append rows (row ∷ [])
length-if rows true false row = length-append rows []
length-if rows false b row = length-append rows []

verdict-is_blocked : (ws : List Text) → is_blocked (verdict ws) ≡ false
verdict-is_blocked [] = refl
verdict-is_blocked (w ∷ ws) = refl

blocks_cases :
    (a b o : Bool) (r s : Text) (rest : GuardrailResult)
    → is_blocked rest ≡ o
    → is_blocked (if a then blocks r else if b then blocks s else rest) ≡ a || (b || o)
blocks_cases true b o r s rest e = refl
blocks_cases false true o r s rest e = refl
blocks_cases false false o r s rest e = e

over_cases :
    (o : Bool) (r : Text) (ws : List Text) → is_blocked (if o then blocks r else verdict ws) ≡ o
over_cases true r ws = refl
over_cases false r ws = verdict-is_blocked ws

measured-is_blocked :
    {F : Type 0} (fl : Floats F) (name : String) (ws : List Text) (u : Option F)
    → is_blocked (measured fl name ws u) ≡ is_over fl u
measured-is_blocked fl name ws none = verdict-is_blocked (ws ++ tool_warnings name)
measured-is_blocked fl name ws (some x) = over_cases (fl.above x 95) (over_reason fl x) _

module _ {F W : Type 0} (fl : Floats F) (plain : Value F → Text) (stored : AuditRow F → Bool)
    (reg : Registry F W) where
  -- What a call without confirmation is stopped for.
  abbrev pub is_risky : String → Dict (Value F) → Bool
  is_risky name args =
      policy_blocks (lookup name reg.policies)
      || (asks_clean fl args || is_over fl (utilization fl args))

  check-is_risky :
      (name : String) (args : Dict (Value F)) (v : Option (Dict (Value F)))
      → confirmed fl args ≡ false
      → view fl args ≡ some v
      → (gr : GuardrailResult) × ((check fl reg.policies name args ≡ some gr)
          × (is_blocked gr ≡ is_risky name args))
  check-is_risky name args v nc e = (
    _,
    (
      check_lem fl reg.policies name args v nc e,
      blocks_cases (policy_blocks (lookup name reg.policies)) (asks_clean fl args) _ _ _ _
          (measured-is_blocked fl name _ (utilization fl args)),
    ),
  )

  blocked_after :
      (name : String) (args : Dict (Value F)) (fn : Tool F W) (w : W) (rows : List (AuditRow F))
      (gr : GuardrailResult)
      → is_blocked gr ≡ true
      → after_check fl plain stored reg name args fn w rows (some gr)
        ≡ says fl plain stored reg (blocked_response gr name) w rows
  blocked_after name args fn w rows gr e =
      ap
        (λ b.
          if b
          then says fl plain stored reg (blocked_response gr name) w rows
          else after_tool fl plain stored reg name args gr rows (fn args w))
        e

  -- What holds of a run that changes nothing and returns.
  abbrev pub IsQuiet : W → List (AuditRow F) → Ran F W → Type 0
  IsQuiet w rows ran = (ran.world ≡ w) × (ran.audit ≡ rows) × (is_some ran.answer ≡ true)

  quiet_lem :
      (name : String) (args : Dict (Value F)) (w : W) (rows : List (AuditRow F))
      (gr : GuardrailResult) (t : Option (Tool F W))
      → check fl reg.policies name args ≡ some gr
      → is_blocked gr ≡ true
      → IsQuiet w rows (after_lookup fl plain stored reg name args w rows t)
  quiet_lem name args w rows gr none e b = (refl, refl, refl)
  quiet_lem name args w rows gr (some fn) e b =
      subst (IsQuiet w rows)
        (sym (
          ap (after_check fl plain stored reg name (without_flag args) fn w rows) e
          ∙ blocked_after name (without_flag args) fn w rows gr b))
        (refl, refl, refl)

  -- A call that is not confirmed and that its policy blocks, that sets clean, or that asks for a
  -- utilization above 95, with params missing, falsy or a dict, runs no tool: world and audit
  -- table stay, and a text is returned.
  pub execute_tool-is_risky :
      (name : String) (args : Dict (Value F)) (w : W) (rows : List (AuditRow F))
      (v : Option (Dict (Value F)))
      → confirmed fl args ≡ false
      → view fl args ≡ some v
      → is_risky name args ≡ true
      → IsQuiet w rows (execute_tool fl plain stored reg name args w rows)
  unfolding execute_tool
  execute_tool-is_risky name args w rows v nc e risky =
      let found = check-is_risky name args v nc e in
      quiet_lem name args w rows found.0 (lookup name reg.dispatch) found.1.0 (found.1.1 ∙ risky)

  open_after :
      (name : String) (args : Dict (Value F)) (fn : Tool F W) (w : W) (rows : List (AuditRow F))
      (gr : GuardrailResult)
      → is_blocked gr ≡ false
      → after_check fl plain stored reg name args fn w rows (some gr)
        ≡ after_tool fl plain stored reg name args gr rows (fn args w)
  open_after name args fn w rows gr e =
      ap
        (λ b.
          if b
          then says fl plain stored reg (blocked_response gr name) w rows
          else after_tool fl plain stored reg name args gr rows (fn args w))
        e

  -- What holds of a run of the tool `fn`.
  abbrev pub IsRun : String → Dict (Value F) → W → List (AuditRow F) → Tool F W → Ran F W → Type 0
  IsRun name args w rows fn ran =
      (ran.world ≡ (fn (without_flag args) w).1)
      × (length ran.audit
          ≡ length rows
            + (if mem_str name reg.custom_names
                  && stored (
                      row_of fl plain stored reg name (without_flag args)
                        (fn (without_flag args) w).0)
                then 1
                else 0))
      × (is_some ran.answer ≡ true)

  new_rows-length :
      (name : String) (args : Dict (Value F)) (o : Outcome (Value F)) (rows : List (AuditRow F))
      → length (rows ++ new_rows fl plain stored reg name args o)
        ≡ length rows
          + (if mem_str name reg.custom_names && stored (row_of fl plain stored reg name args o)
              then 1
              else 0)
  new_rows-length name args o rows = length-if rows (mem_str name reg.custom_names) _ _

  -- A call of a known tool that is not confirmed and not risky, with params missing, falsy or a
  -- dict, runs the tool once, on the arguments without the flag; it adds one row to the audit
  -- table if the tool is a custom one and the database takes the row, and none otherwise, also
  -- when the tool raises; and it returns a text in every case.
  pub execute_tool-runs :
      (name : String) (args : Dict (Value F)) (w : W) (rows : List (AuditRow F))
      (v : Option (Dict (Value F))) (fn : Tool F W)
      → confirmed fl args ≡ false
      → view fl args ≡ some v
      → is_risky name args ≡ false
      → lookup name reg.dispatch ≡ some fn
      → IsRun name args w rows fn (execute_tool fl plain stored reg name args w rows)
  unfolding execute_tool
  execute_tool-runs name args w rows v fn nc e safe_call known =
      let found = check-is_risky name args v nc e in
      subst (IsRun name args w rows fn)
        (sym (
          ap (after_lookup fl plain stored reg name args w rows) known
          ∙ ap (after_check fl plain stored reg name (without_flag args) fn w rows) found.1.0
          ∙ open_after name (without_flag args) fn w rows found.0 (found.1.1 ∙ safe_call)))
        (refl, new_rows-length name (without_flag args) _ rows, refl)

  check-confirmed :
      (name : String) (args : Dict (Value F))
      → confirmed fl args ≡ true
      → check fl reg.policies name args ≡ some is_safe
  unfolding check
  check-confirmed name args c = rw c

  returned_text :
      (name : String) (args : Dict (Value F)) (w : W) (rows : List (AuditRow F))
      (gr : GuardrailResult) (t : Option (Tool F W))
      → check fl reg.policies name args ≡ some gr
      → is_some (after_lookup fl plain stored reg name args w rows t).answer ≡ true
  returned_text name args w rows gr none e = refl
  returned_text name args w rows gr (some fn) e =
      ap
        (λ c. is_some (after_check fl plain stored reg name (without_flag args) fn w rows c).answer)
        e
      ∙ elim (Bool-cases (is_blocked gr)) [
        | inl b ↦
            ap (λ ran. is_some ran.answer) (blocked_after name (without_flag args) fn w rows gr b)
        | inr b ↦
            ap (λ ran. is_some ran.answer) (open_after name (without_flag args) fn w rows gr b)
      ]

  -- A text comes back from every call whose params are missing, falsy or a dict: of an unknown
  -- tool, blocked, and when the tool raises too.
  pub execute_tool-is_some :
      (name : String) (args : Dict (Value F)) (w : W) (rows : List (AuditRow F))
      (v : Option (Dict (Value F)))
      → view fl args ≡ some v
      → is_some (execute_tool fl plain stored reg name args w rows).answer ≡ true
  unfolding execute_tool
  execute_tool-is_some name args w rows v e = elim (Bool-cases (confirmed fl args)) [
    | inl c ↦
        returned_text name args w rows is_safe (lookup name reg.dispatch)
          (check-confirmed name args c)
    | inr c ↦
        let found = check-is_risky name args v c e in
        returned_text name args w rows found.0 (lookup name reg.dispatch) found.1.0
  ]

  -- A call of a known tool leaves with an exception, and runs no tool, if it is neither confirmed
  -- nor blocked by its policy, clean is not set, and its params are a true value that is no dict.
  pub execute_tool-raises :
      (name : String) (args : Dict (Value F)) (w : W) (rows : List (AuditRow F)) (fn : Tool F W)
      → confirmed fl args ≡ false
      → view fl args ≡ none
      → truthy_at fl (lookup "clean" args) ≡ false
      → policy_blocks (lookup name reg.policies) ≡ false
      → lookup name reg.dispatch ≡ some fn
      → execute_tool fl plain stored reg name args w rows
        ≡ record { answer = none; world = w; audit = rows }
  unfolding execute_tool
  execute_tool-raises name args w rows fn nc e c n known =
      ap (after_lookup fl plain stored reg name args w rows) known
      ∙ ap (after_check fl plain stored reg name (without_flag args) fn w rows)
          (check-raises fl reg.policies name args nc e c n)

-- Another tool in the registry, for a call that treats both alike.
after_check_same :
    {F W : Type 0} (fl : Floats F) (plain : Value F → Text) (stored : AuditRow F → Bool)
    (reg : Registry F W) (dispatch : Dict (Tool F W)) (name : String) (args : Dict (Value F))
    (w : W) (rows : List (AuditRow F)) (fn other : Tool F W)
    → other args w ≡ fn args w
    → (c : Option GuardrailResult)
    → after_check fl plain stored (record reg { dispatch = dispatch }) name args other w rows c
      ≡ after_check fl plain stored reg name args fn w rows c
after_check_same fl plain stored reg dispatch name args w rows fn other e none = refl
after_check_same fl plain stored reg dispatch name args w rows fn other e (some gr) =
    ap
      (λ r.
        if is_blocked gr
        then says fl plain stored reg (blocked_response gr name) w rows
        else after_tool fl plain stored reg name args gr rows r)
      e

-- If two tools do the same on all arguments without the flag of the guardrails, a call gives the
-- same with the one as with the other: no tool sees the flag.
pub execute_tool-same :
    {F W : Type 0} (fl : Floats F) (plain : Value F → Text) (stored : AuditRow F → Bool)
    (reg : Registry F W) (name : String) (args : Dict (Value F)) (w : W) (rows : List (AuditRow F))
    (fn other : Tool F W)
    → lookup name reg.dispatch ≡ some fn
    → ((seen : Dict (Value F)) (u : W)
        → lookup "_guardrail_confirmed" seen ≡ none
        → other seen u ≡ fn seen u)
    → execute_tool fl plain stored
        (record reg { dispatch = insert name other reg.dispatch })
        name
        args
        w
        rows
      ≡ execute_tool fl plain stored reg name args w rows
unfolding execute_tool
execute_tool-same fl plain stored reg name args w rows fn other known same =
    let changed = record reg { dispatch = insert name other reg.dispatch } in
    ap (after_lookup fl plain stored changed name args w rows) (
      lookup-insert name name other reg.dispatch
      ∙ ap (λ b. if b then some other else lookup name reg.dispatch) (str_eq_refl name))
    ∙ after_check_same fl plain stored reg (insert name other reg.dispatch) name (without_flag args)
        w rows fn other (same (without_flag args) w (lookup-without_flag args))
        (check fl reg.policies name args)
    ∙ sym (ap (after_lookup fl plain stored reg name args w rows) known)
