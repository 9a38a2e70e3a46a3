-- ===== src/Optimize/Bounds.antt =====
-- The history that `orchestrate` leaves: how many records, their numbers, and which say converged.
use eda_agent.Base.{
  ℕ, zero, suc, String, ◌≡◌, refl, sym, ap, ◌∙◌, ◌≤◌, ◌<◌, ◌⊎◌, Bool, true, false, not, ◌||◌,
  Option, none, some, List, [], ◌∷◌, ◌++◌, append_assoc, append-nil, Text, length, All, arith,
  is_some, any_of, Bool-cases, inl, inr,
}
use eda_agent.Json.{Value}
use eda_agent.Json.Dict.{Dict}
use eda_agent.Optimize.Loop.{
  Env, Inference, IterationRecord, Selected, Round, succeeded, verify, target_check, try_experiment,
  skipped, select_experiment, round, loop, orchestrate, is_open, final_step,
}

module _ {F : Type 0} where
  -- The records carry the numbers from `n + 1` on.
  abbrev pub IsNumbered : ℕ → List (IterationRecord F) → Type 0
  IsNumbered n [] = Unit
  IsNumbered n (r ∷ rs) = (r.iteration ≡ suc n) × IsNumbered (suc n) rs

  -- Only the last record may say converged.
  abbrev pub OnlyLast : List (IterationRecord F) → Type 0
  OnlyLast [] = Unit
  OnlyLast (r ∷ []) = Unit
  OnlyLast (r ∷ s ∷ rs) = (r.converged ≡ false) × OnlyLast (s ∷ rs)

  -- A record says converged exactly for a target that is met or a score that dropped, and then its
  -- run exists and succeeded.
  abbrev pub IsHonest : IterationRecord F → Type 0
  IsHonest r =
      (r.converged ≡ r.target_met || r.score_dropped)
      × (r.converged ≡ true → (succeeded r.new_run_status ≡ true) × (is_some r.new_run_id ≡ true))

  OnlyLast-cons :
      (r : IterationRecord F) (rs : List (IterationRecord F))
      → r.converged ≡ false
      → OnlyLast rs
      → OnlyLast (r ∷ rs)
  OnlyLast-cons r [] e h = tt
  OnlyLast-cons r (s ∷ rs) e h = (e, h)

  any_of-is_open :
      (r : IterationRecord F) (rs : List (IterationRecord F))
      → OnlyLast (r ∷ rs)
      → is_open (r ∷ rs) ≡ not (any_of (λ s. s.converged) (r ∷ rs))
  unfolding is_open
  any_of-is_open r [] h = ground arith
  any_of-is_open r (s ∷ rs) h = ground (arith, h.0, any_of-is_open s rs h.1)

  new_is_open :
      (rs : List (IterationRecord F))
      → 0 < length rs
      → OnlyLast rs
      → is_open rs ≡ not (any_of (λ s. s.converged) rs)
  new_is_open [] p h = ground arith
  new_is_open (r ∷ rs) p h = any_of-is_open r rs h

module _ {F W : Type 0} (env : Env F W) (target_spec : Text) (base_params : Dict (Value F)) where
  verified :
      (e : Selected F) (run : Option ℕ) (status : String) (w : W)
      → (verify env target_spec base_params e run status w).0 ≡ true
      → (succeeded status ≡ true) × (is_some run ≡ true)
  verified e none status w h = ground arith
  verified e (some i) status w h = elim (Bool-cases (succeeded status)) [
    | inl s ↦ (s, refl)
    | inr s ↦ ground arith
  ]

  met_target :
      (run : Option ℕ) (status : String) (w : W)
      → (target_check env target_spec base_params run status w).0 ≡ true
      → (succeeded status ≡ true) × (is_some run ≡ true)
  met_target none status w h = ground arith
  met_target (some i) status w h = elim (Bool-cases (succeeded status)) [
    | inl s ↦ (s, refl)
    | inr s ↦ ground arith
  ]

  -- What holds of round `n`.
  abbrev Facts : ℕ → Round env target_spec base_params → Type 0
  Facts n r =
      (r.entry.iteration ≡ n)
      × IsHonest r.entry
      × (is_some r.onward ≡ true → r.entry.converged ≡ false)

  closing :
      (b : Bool) (n run : ℕ) (rec : IterationRecord F) (w u : W)
      → rec.converged ≡ b
      → rec.iteration ≡ n
      → IsHonest rec
      → Facts n (elim b [
        | true ↦ record { entry = rec; onward = none; world = w }
        | false ↦ record { entry = rec; onward = some run; world = u }
      ])
  closing true n run rec w u c i h = (i, h, λ s. ground arith)
  closing false n run rec w u c i h = (i, h, λ s. c)

  tried :
      (n current : ℕ) (found : Inference F) (e : Selected F) (w : W)
      → Facts n (try_experiment env target_spec base_params n current found e w)
  tried n current found e w =
      closing _ n _ _ _ _ refl refl (refl, λ c. grind (arith, verified e _ _ _, met_target _ _ _))

  chosen :
      (n current : ℕ) (found : Inference F) (w : W) (o : Option (Selected F))
      → Facts n (elim o [
        | none ↦ record {
          entry = skipped env target_spec base_params n found;
          onward = none;
          world = w;
        }
        | some e ↦ try_experiment env target_spec base_params n current found e w
      ])
  chosen n current found w none = (refl, (refl, λ c. ground arith), λ c. ground arith)
  chosen n current found w (some e) = tried n current found e w

  round-Facts : (n current : ℕ) (w : W) → Facts n (round env target_spec base_params n current w)
  unfolding round
  round-Facts n current w =
      chosen n current (env.infer current target_spec w).0 (env.infer current target_spec w).1
        (select_experiment (env.infer current target_spec w).0.hypotheses)

  -- The records that the loop adds from iteration `n`, with `left` to go.
  abbrev pub Adds : ℕ → ℕ → List (IterationRecord F) → List (IterationRecord F) → Type 0
  Adds left n history after =
      (new : List (IterationRecord F)) × (after ≡ history ++ new)
      × (length new ≤ left)
      × (left ≡ 0 ⊎ 0 < length new)
      × IsNumbered n new
      × OnlyLast new
      × All IsHonest new

  Adds-cons :
      (left n : ℕ) (history after : List (IterationRecord F)) (r : IterationRecord F)
      → r.iteration ≡ suc n
      → IsHonest r
      → r.converged ≡ false
      → Adds left (suc n) (history ++ r ∷ []) after
      → Adds (suc left) n history after
  Adds-cons left n history after r i h c (new, e, l, p, is, o, hs) = (
    r ∷ new,
    e ∙ append_assoc history (r ∷ []) new,
    omega (arith, l),
    inr (omega arith),
    (i, is),
    OnlyLast-cons r new c o,
    (h, hs),
  )

  Adds-end :
      (left n : ℕ) (history : List (IterationRecord F)) (r : IterationRecord F)
      → r.iteration ≡ suc n
      → IsHonest r
      → Adds (suc left) n history (history ++ r ∷ [])
  Adds-end left n history r i h =
      (r ∷ [], refl, omega arith, inr (omega arith), (i, tt), tt, (h, tt))

  after_round :
      (left n current : ℕ) (history : List (IterationRecord F))
      (r : Round env target_spec base_params) (o : Option ℕ)
      → Facts (suc n) r
      → r.onward ≡ o
      → ((run : ℕ)
          → Adds left
              (suc n)
              (history ++ r.entry ∷ [])
              (loop env target_spec base_params left
                (suc n)
                run
                (history ++ r.entry ∷ [])
                r.world).1)
      → Adds
          (suc left)
          n
          history
          (elim o as (λ x. ℕ × List (IterationRecord F) × W) [
            | none ↦ (current, history ++ r.entry ∷ [], r.world)
            | some run ↦
                loop env target_spec base_params left (suc n) run (history ++ r.entry ∷ []) r.world
          ]).1
  after_round left n current history r none (i, h, c) e rest = Adds-end left n history r.entry i h
  after_round left n current history r (some run) (i, h, c) e rest =
      Adds-cons left n history _ r.entry i h (c (ap is_some e)) (rest run)

  loop-Adds :
      (left n current : ℕ) (history : List (IterationRecord F)) (w : W)
      → Adds left n history (loop env target_spec base_params left n current history w).1
  unfolding loop
  loop-Adds zero n current history w =
      ([], sym (append-nil history), omega arith, inl refl, tt, tt, tt)
  loop-Adds (suc left) n current history w =
      let r = round env target_spec base_params (suc n) current w in
      after_round left n current history r r.onward (round-Facts (suc n) current w) refl
        (λ run. loop-Adds left (suc n) run (history ++ r.entry ∷ []) r.world)

  -- A call of orchestrate appends to the history at most max_iterations records, and at least one
  -- unless that is 0; they are numbered from 1, only the last may say converged, and a record says
  -- converged exactly when the target is met or the score dropped, which needs a run that exists
  -- and succeeded.
  pub orchestrate-Adds :
      (max_iterations run_id : ℕ) (history : List (IterationRecord F)) (w : W)
      → Adds max_iterations 0 history
          (orchestrate env target_spec base_params max_iterations run_id history w).1
  unfolding orchestrate
  orchestrate-Adds max_iterations run_id history w = loop-Adds max_iterations 0 run_id history w

  final_step-is_open :
      (current : ℕ) (history : List (IterationRecord F)) (w : W)
      → is_some (final_step env target_spec base_params current history w).0 ≡ is_open history
  final_step-is_open current history w = elim (Bool-cases (is_open history)) [
    | inl e ↦ ground arith
    | inr e ↦ ground arith
  ]

  open_after :
      (n : ℕ) (history : List (IterationRecord F))
      → Adds (suc n) 0 [] history
      → is_open history ≡ not (any_of (λ r. r.converged) history)
  open_after n history (new, e, l, p, is, o, hs) =
      ap is_open e
      ∙ new_is_open new (grind (arith, p)) o
      ∙ sym (ap (λ rs. not (any_of (λ r. r.converged) rs)) e)

  -- From an empty history and with at least one iteration, orchestrate returns a final inference
  -- exactly when it does not report converged.
  pub orchestrate-fresh :
      (n run_id : ℕ) (w : W)
      → let report = (orchestrate env target_spec base_params (suc n) run_id [] w).0 in
        is_some report.final_inference ≡ not report.converged
  unfolding orchestrate
  orchestrate-fresh n run_id w =
      let ended = loop env target_spec base_params (suc n) 0 run_id [] w in
      final_step-is_open ended.0 ended.1 ended.2
      ∙ open_after n ended.1 (loop-Adds (suc n) 0 run_id [] w)
