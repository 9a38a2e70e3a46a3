-- ===== src/Inference/Ranking.antt =====
-- The ranking of causes by `infer`.
use mathlib.Core.List.{Perm}
use mathlib.Core.List.Perm
use eda_agent.Base.{
  ◌≡◌, refl, Bool, true, false, List, [], ◌∷◌, take, map, keep_if, All, if◌then◌else◌, Text,
}
use eda_agent.Json.{Value}
use eda_agent.Json.Dict.{Dict}
use eda_agent.Inference.Engine.{
  Scoring, Rule, Fired, fired_of, reaches, fired_rules, insert_best, best_first, causes_from, infer,
}

-- The laws of the order of floats other than NaN.
pub record IsOrder {F : Type 0} (s : Scoring F) : Type 0 where
  pub lt_irrefl : (a : F) → s.lt a a ≡ false
  pub lt_asym : (a b : F) → s.lt a b ≡ true → s.lt b a ≡ false
  pub not_lt_trans : (a b c : F) → s.lt a b ≡ false → s.lt b c ≡ false → s.lt a c ≡ false

module _ {F : Type 0} (s : Scoring F) where
  -- Every later one has a score that is not greater.
  abbrev pub IsBestFirst : List (Fired F) → Type 0
  IsBestFirst [] = Unit
  IsBestFirst (t ∷ ts) =
      All (λ (u : Fired F). s.lt t.adjusted u.adjusted ≡ false) ts × IsBestFirst ts

  -- The score reaches the rule's threshold, and is at most one.
  abbrev pub Counts : Fired F → Type 0
  Counts t = (s.le t.rule.min_score t.adjusted ≡ true) × (s.lt s.one t.adjusted ≡ false)

  insert_best-perm : (t : Fired F) (ts : List (Fired F)) → Perm (insert_best s t ts) (t ∷ ts)
  insert_best-perm t [] = Perm.cons t Perm.nil
  insert_best-perm t (u ∷ us) =
      elim (s.lt t.adjusted u.adjusted)
        as (λ b. Perm (if b then u ∷ insert_best s t us else t ∷ u ∷ us) (t ∷ u ∷ us)) [
          | true ↦ Perm.trans (Perm.cons u (insert_best-perm t us)) (Perm.swap t u us)
          | false ↦ Perm.refl (t ∷ u ∷ us)
        ]

  best_first-perm : (ts : List (Fired F)) → Perm (best_first s ts) ts
  unfolding best_first
  best_first-perm [] = Perm.nil
  best_first-perm (t ∷ ts) =
      Perm.trans (insert_best-perm t (best_first s ts)) (Perm.cons t (best_first-perm ts))

  insert_best-All :
      (P : Fired F → Type 0) (t : Fired F) (ts : List (Fired F))
      → P t
      → All P ts
      → All P (insert_best s t ts)
  insert_best-All P t [] p h = (p, tt)
  insert_best-All P t (u ∷ us) p h =
      elim (s.lt t.adjusted u.adjusted)
        as (λ b. All P (if b then u ∷ insert_best s t us else t ∷ u ∷ us)) [
          | true ↦ (h.0, insert_best-All P t us p h.1)
          | false ↦ (p, h)
        ]

  best_first-All : (P : Fired F → Type 0) (ts : List (Fired F)) → All P ts → All P (best_first s ts)
  unfolding best_first
  best_first-All P [] h = tt
  best_first-All P (t ∷ ts) h = insert_best-All P t (best_first s ts) h.0 (best_first-All P ts h.1)

  module _ (order : IsOrder s) where
    not_better :
        (t u : Fired F) (us : List (Fired F))
        → s.lt t.adjusted u.adjusted ≡ false
        → All (λ (x : Fired F). s.lt u.adjusted x.adjusted ≡ false) us
        → All (λ (x : Fired F). s.lt t.adjusted x.adjusted ≡ false) us
    not_better t u [] e h = tt
    not_better t u (x ∷ us) e h =
        (order.not_lt_trans t.adjusted u.adjusted x.adjusted e h.0, not_better t u us e h.1)

    placed :
        (t u : Fired F) (us : List (Fired F)) (b : Bool)
        → s.lt t.adjusted u.adjusted ≡ b
        → IsBestFirst (u ∷ us)
        → IsBestFirst (insert_best s t us)
        → IsBestFirst (if b then u ∷ insert_best s t us else t ∷ u ∷ us)
    placed t u us true e h ih = (
      insert_best-All (λ (x : Fired F). s.lt u.adjusted x.adjusted ≡ false) t us
          (order.lt_asym t.adjusted u.adjusted e) h.0,
      ih,
    )
    placed t u us false e h ih = ((e, not_better t u us e h.0), h)

    insert_best-IsBestFirst :
        (t : Fired F) (ts : List (Fired F)) → IsBestFirst ts → IsBestFirst (insert_best s t ts)
    insert_best-IsBestFirst t [] h = (tt, tt)
    insert_best-IsBestFirst t (u ∷ us) h =
        placed t u us (s.lt t.adjusted u.adjusted) refl h (insert_best-IsBestFirst t us h.1)

    best_first-IsBestFirst : (ts : List (Fired F)) → IsBestFirst (best_first s ts)
    unfolding best_first
    best_first-IsBestFirst [] = tt
    best_first-IsBestFirst (t ∷ ts) =
        insert_best-IsBestFirst t (best_first s ts) (best_first-IsBestFirst ts)

    at_most_one :
        (a : F) (b : Bool) → s.lt a s.one ≡ b → s.lt s.one (if b then a else s.one) ≡ false
    at_most_one a true e = order.lt_asym a s.one e
    at_most_one a false e = order.lt_irrefl s.one

    kept_Counts :
        (t : Fired F) (ts : List (Fired F)) (b : Bool)
        → reaches s t ≡ b
        → s.lt s.one t.adjusted ≡ false
        → All Counts ts
        → All Counts (if b then t ∷ ts else ts)
    kept_Counts t ts true e small h = ((e, small), h)
    kept_Counts t ts false e small h = h

    fired_rules-Counts :
        (multipliers fv : Dict F) (rules : List (Rule F))
        → All Counts (fired_rules s multipliers fv rules)
    unfolding fired_rules
    fired_rules-Counts multipliers fv [] = tt
    fired_rules-Counts multipliers fv (r ∷ rs) =
        kept_Counts (fired_of s multipliers fv r)
          (keep_if (reaches s) (map (fired_of s multipliers fv) rs))
          (reaches s (fired_of s multipliers fv r)) refl (at_most_one _ _ refl)
          (fired_rules-Counts multipliers fv rs)

    -- Under the laws of an order, the hypotheses of an inference are the first three, numbered
    -- from 1, of a list that has each rule that fired once, none after one with a smaller score;
    -- every score on it reaches the threshold of its rule and is at most one.
    pub infer_lem :
        (show : Dict (Value F) → Text) (multipliers fv : Dict F) (rules : List (Rule F))
        → (ranked : List (Fired F)) × Perm ranked (fired_rules s multipliers fv rules)
          × IsBestFirst ranked
          × All Counts ranked
          × ((infer s show multipliers fv rules).hypotheses
              ≡ causes_from s multipliers 1 (take 3 ranked))
    unfolding infer
    infer_lem show multipliers fv rules =
        let fired = fired_rules s multipliers fv rules in
        (
          best_first s fired,
          best_first-perm fired,
          best_first-IsBestFirst fired,
          best_first-All Counts fired (fired_rules-Counts multipliers fv rules),
          refl,
        )
