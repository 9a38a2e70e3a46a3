-- ===== src/Inference/Bounds.antt =====
-- The bounds of the multipliers, and which way a confirmation moves them.
use eda_agent.Base.{
  String, ◌≡◌, refl, ap, ◌∙◌, Bool, true, false, some, List, [], ◌∷◌, if◌then◌else◌, str_eq,
  mem_str, All, arith, Bool-cases, inl, inr, eq_iff, str_eq_refl,
}
use eda_agent.Json.Dict.{Dict, lookup, insert, lookup-insert}
use eda_agent.Inference.Scale.{Scale, IsScale}
use eda_agent.Inference.Weights.{clamp, base, raise_weight, lower_weight, lower_all, update_weights}

-- What holds of each branch, under its tests, holds of the choice.
choose :
    {A : Type 0} (P : A → Type 0) (a b : Bool) (x y z : A)
    → P x
    → (a ≡ false → P y)
    → (b ≡ false → P z)
    → P (if a then x else if b then y else z)
choose P true b x y z p q r = p
choose P false true x y z p q r = q refl
choose P false false x y z p q r = r refl

module _ {F : Type 0} (s : Scale F) where
  abbrev pub IsBounded : F → Type 0
  IsBounded v = (s.le s.min_multiplier v ≡ true) × (s.le v s.max_multiplier ≡ true)

  abbrev pub AllBounded : Dict F → Type 0
  AllBounded = All (λ entry. IsBounded entry.1)

  clamp-IsBounded : IsScale s → (v : F) → IsBounded (clamp s v)
  unfolding clamp
  clamp-IsBounded laws v = elim (Bool-cases (s.le s.max_multiplier v)) [
    | inl e ↦ elim (Bool-cases (s.le s.max_multiplier s.min_multiplier)) [
      | inl f ↦ rw (e, f) (laws.le_refl s.min_multiplier, laws.limits)
      | inr f ↦ rw (e, f) (laws.limits, laws.le_refl s.max_multiplier)
    ]
    | inr e ↦ elim (Bool-cases (s.le v s.min_multiplier)) [
      | inl f ↦ rw (e, f) (laws.le_refl s.min_multiplier, laws.limits)
      | inr f ↦ rw (e, f) (laws.le_total v s.min_multiplier f, laws.le_total s.max_multiplier v e)
    ]
  ]

  insert-AllBounded :
      (key : String) (v : F) (d : Dict F) → IsBounded v → AllBounded d → AllBounded (insert key v d)
  unfolding insert
  insert-AllBounded key v [] b h = (b, tt)
  insert-AllBounded key v ((found, w) ∷ d) b h = elim (Bool-cases (str_eq found key)) [
    | inl e ↦ rw e (b, h.1)
    | inr e ↦ rw e (h.0, insert-AllBounded key v d b h.1)
  ]

  raise_weight-AllBounded :
      IsScale s
      → (current : Dict F) (rule : String) (change : F) (d : Dict F) → AllBounded d
      → AllBounded (raise_weight s current rule change d)
  unfolding raise_weight
  raise_weight-AllBounded laws current rule change d h =
      insert-AllBounded rule (clamp s (s.add (base s current rule) change)) d
        (clamp-IsBounded laws _) h

  lower_weight-AllBounded :
      IsScale s
      → (current : Dict F) (rule : String) (change : F) (d : Dict F) → AllBounded d
      → AllBounded (lower_weight s current rule change d)
  unfolding lower_weight
  lower_weight-AllBounded laws current rule change d h =
      insert-AllBounded rule (clamp s (s.sub (base s current rule) change)) d
        (clamp-IsBounded laws _) h

  lower_all-AllBounded :
      IsScale s
      → (current : Dict F) (rules : List String) (change : F) (d : Dict F) → AllBounded d
      → AllBounded (lower_all s current rules change d)
  unfolding lower_all
  lower_all-AllBounded laws current [] change d h = h
  lower_all-AllBounded laws current (r ∷ rs) change d h =
      lower_all-AllBounded laws current rs change (lower_weight s current r change d)
        (lower_weight-AllBounded laws current r change d h)

  -- If the order of the scale is reflexive and total and its limits are in order, every multiplier
  -- that a confirmation writes lies between the two limits.
  pub update_weights-AllBounded :
      IsScale s
      → (current : Dict F) (cause : String) (top_ids : List String) (delta : F)
      → AllBounded (update_weights s current cause top_ids delta)
  unfolding update_weights
  update_weights-AllBounded laws current cause [] delta =
      raise_weight-AllBounded laws current cause delta [] tt
  update_weights-AllBounded laws current cause (top ∷ others) delta =
      let raised_weight = raise_weight s current cause delta [] in
      let first = raise_weight-AllBounded laws current cause delta [] tt in
      choose AllBounded (str_eq cause top) (mem_str cause (top ∷ others)) raised_weight
        (lower_weight s current top delta raised_weight)
        (lower_all s current (top ∷ others) (s.half delta) raised_weight) first
        (λ e. lower_weight-AllBounded laws current top delta raised_weight first)
        (λ m. lower_all-AllBounded laws current (top ∷ others) (s.half delta) raised_weight first)

  lower_weight_other :
      (current : Dict F) (cause rule : String) (change : F) (d : Dict F)
      → str_eq rule cause ≡ false
      → lookup cause (lower_weight s current rule change d) ≡ lookup cause d
  unfolding lower_weight
  lower_weight_other current cause rule change d n =
      lookup-insert rule cause (clamp s (s.sub (base s current rule) change)) d
      ∙ ap (λ b. if b then some (clamp s (s.sub (base s current rule) change)) else lookup cause d)
          n

  lower_all_other :
      (current : Dict F) (cause : String) (rules : List String) (change : F) (d : Dict F)
      → mem_str cause rules ≡ false
      → lookup cause (lower_all s current rules change d) ≡ lookup cause d
  unfolding lower_all
  lower_all_other current cause [] change d n = refl
  lower_all_other current cause (r ∷ rs) change d n =
      lower_all_other current cause rs change (lower_weight s current r change d) (ground arith)
      ∙ lower_weight_other current cause r change d (ground arith)

  raise_weight_cause :
      (current : Dict F) (cause : String) (delta : F)
      → lookup cause (raise_weight s current cause delta [])
        ≡ some (clamp s (s.add (base s current cause) delta))
  unfolding raise_weight
  raise_weight_cause current cause delta =
      lookup-insert cause cause (clamp s (s.add (base s current cause) delta)) []
      ∙ ap (λ b. if b then some (clamp s (s.add (base s current cause) delta)) else lookup cause [])
          (str_eq_refl cause)

  -- Whatever was ranked, a confirmation writes for the confirmed cause its multiplier, 1 if it has
  -- none, raised by the step and clamped; no lowering of another rule changes it.
  pub update_weights-cause :
      (current : Dict F) (cause : String) (top_ids : List String) (delta : F)
      → lookup cause (update_weights s current cause top_ids delta)
        ≡ some (clamp s (s.add (base s current cause) delta))
  unfolding update_weights
  update_weights-cause current cause [] delta = raise_weight_cause current cause delta
  update_weights-cause current cause (top ∷ others) delta =
      let raised_weight = raise_weight s current cause delta [] in
      let first = raise_weight_cause current cause delta in
      choose (λ d. lookup cause d ≡ some (clamp s (s.add (base s current cause) delta)))
        (str_eq cause top) (mem_str cause (top ∷ others)) raised_weight
        (lower_weight s current top delta raised_weight)
        (lower_all s current (top ∷ others) (s.half delta) raised_weight) first
        (λ e.
          lower_weight_other current cause top delta raised_weight
            (ground (arith, eq_iff cause top, eq_iff top cause))
          ∙ first)
        (λ m. lower_all_other current cause (top ∷ others) (s.half delta) raised_weight m ∙ first)
