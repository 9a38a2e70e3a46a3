-- ===== src/Optimize/Choice.antt =====
-- What `_select_experiment` chooses.
use eda_agent.Base.{
  ◌≡◌, refl, sym, ap, subst, ◌∙◌, ◌⊎◌, if◌then◌else◌, true, false, Option, none, some, List, [],
  ◌∷◌, ◌++◌, All, or_else, Bool-cases, inl, inr,
}
use eda_agent.Optimize.Loop.{
  Experiment, Hypothesis, Selected, is_low, first_low, selected_as, pick, select_experiment,
}

module _ {F : Type 0} where
  -- `e` is the first experiment of low risk.
  abbrev pub IsFirstLow : Experiment F → List (Experiment F) → Type 0
  IsFirstLow e es =
      (pre post : List (Experiment F)) × (es ≡ pre ++ e ∷ post)
      × All (λ x. is_low x ≡ false) pre
      × (is_low e ≡ true)

  abbrev pub FirstLow : List (Experiment F) → Option (Experiment F) → Type 0
  FirstLow es none = All (λ x. is_low x ≡ false) es
  FirstLow es (some e) = IsFirstLow e es

  FirstLow-cons :
      (e : Experiment F) (es : List (Experiment F)) (o : Option (Experiment F))
      → is_low e ≡ false
      → FirstLow es o
      → FirstLow (e ∷ es) o
  FirstLow-cons e es none n h = (n, h)
  FirstLow-cons e es (some x) n (pre, post, q, a, l) =
      (e ∷ pre, post, ap (λ xs. e ∷ xs) q, (n, a), l)

  first_low-FirstLow : (es : List (Experiment F)) → FirstLow es (first_low es)
  unfolding first_low
  first_low-FirstLow [] = tt
  first_low-FirstLow (e ∷ es) = elim (Bool-cases (is_low e)) [
    | inl l ↦
        subst (FirstLow (e ∷ es)) (ap (λ b. if b then some e else first_low es) (sym l))
          ([], es, refl, tt, l)
    | inr n ↦
        subst (FirstLow (e ∷ es)) (ap (λ b. if b then some e else first_low es) (sym n))
          (FirstLow-cons e es (first_low es) n (first_low-FirstLow es))
  ]

  -- What the choice from the hypothesis `top` may be.
  abbrev pub ChoiceOutcome : Hypothesis F → Option (Selected F) → Type 0
  ChoiceOutcome top r =
      ((top.experiments ≡ []) × (r ≡ none))
      ⊎ ((e : Experiment F) × IsFirstLow e top.experiments × (r ≡ some (selected_as top e "low")))
      ⊎ ((e : Experiment F) × (es : List (Experiment F)) × (top.experiments ≡ e ∷ es)
          × All (λ x. is_low x ≡ false) (e ∷ es)
          × (r ≡ some (selected_as top e (or_else e.risk "unknown"))))

  picked :
      (top : Hypothesis F) (e : Experiment F) (es : List (Experiment F)) (o : Option (Experiment F))
      → top.experiments ≡ e ∷ es
      → FirstLow (e ∷ es) o
      → ChoiceOutcome top (elim o [
        | some low ↦ some (selected_as top low "low")
        | none ↦ some (selected_as top e (or_else e.risk "unknown"))
      ])
  picked top e es none q h = inr (inr (e, es, q, h, refl))
  picked top e es (some low) q (pre, post, s, a, l) =
      inr (inl (low, (pre, post, q ∙ s, a, l), refl))

  pick_lem :
      (top : Hypothesis F) (es : List (Experiment F))
      → top.experiments ≡ es
      → ChoiceOutcome top (pick top es)
  pick_lem top [] q = inl (q, refl)
  pick_lem top (e ∷ es) q = picked top e es (first_low (e ∷ es)) q (first_low-FirstLow (e ∷ es))

  -- From a top hypothesis the choice is nothing if it has no experiment, else its first experiment
  -- of low risk, else, if none has low risk, its first experiment with its own risk.
  pub select_experiment_lem :
      (top : Hypothesis F) (rest : List (Hypothesis F))
      → ChoiceOutcome top (select_experiment (top ∷ rest))
  unfolding select_experiment
  select_experiment_lem top rest = pick_lem top top.experiments refl
