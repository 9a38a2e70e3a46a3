-- ===== src/Inference/Engine.antt =====
-- agent/inference/rules.py (Condition, Rule) and agent/inference/engine.py (infer). Float arithmetic,
-- rounding and texts of floats are a parameter; the features of a run and the multipliers, which come
-- from the database, are arguments. A feature that is None is not in the dict.
use eda_agent.Base.{
  ℕ, suc, String, Bool, false, Option, none, some, List, [], ◌∷◌, ◌++◌, map, keep_if, take,
  if◌then◌else◌, str_eq, Text, codes, or_else,
}
use eda_agent.Json.{Value}
use eda_agent.Json.Dict.{Dict, lookup}

pub record Scoring (F : Type 0) : Type 0 where
  pub nought : F
  pub one : F
  pub add : F → F → F
  pub sub : F → F → F
  pub mul : F → F → F
  pub div : F → F → F
  pub lt : F → F → Bool
  pub le : F → F → Bool
  pub ne : F → F → Bool
  pub high : F
  pub medium : F
  pub round4 : F → F
  pub format2 : F → Text

-- The keys of `_OPS`.
pub data Op : Type 0 where
  gt ge lt le ne : Op

pub record Condition (F : Type 0) : Type 0 where
  pub feature : String
  pub op : Op
  pub threshold : F
  pub weight : F

-- `Condition.to_dict`, for a condition that is met.
pub record Evidence (F : Type 0) : Type 0 where
  pub condition : Condition F
  pub actual : Option F
  pub met : Bool

pub record ExperimentSuggestion (F : Type 0) : Type 0 where
  pub action : Text
  pub risk : String
  pub param_hint : Dict (Value F)

pub record Rule (F : Type 0) : Type 0 where
  pub id : String
  pub display_name : Text
  pub description : Text
  pub conditions : List (Condition F)
  pub anti_conditions : List (Condition F)
  pub min_score : F
  pub experiments : List (ExperimentSuggestion F)

-- A rule that fired: (adjusted, raw_score, evidence, anti_evidence, rule).
pub record Fired (F : Type 0) : Type 0 where
  pub adjusted : F
  pub raw_score : F
  pub evidence : List (Evidence F)
  pub anti_evidence : List (Evidence F)
  pub rule : Rule F

pub record RankedCause (F : Type 0) : Type 0 where
  pub rank : ℕ
  pub cause_id : String
  pub display_name : Text
  pub description : Text
  pub score : F
  pub raw_score : F
  pub multiplier : F
  pub confidence : String
  pub evidence : List (Evidence F)
  pub anti_evidence : List (Evidence F)
  pub experiments : List (ExperimentSuggestion F)

pub record InferenceReport (F : Type 0) : Type 0 where
  pub hypotheses : List (RankedCause F)
  pub summary : Text
  pub next_action : Text

module _ {F : Type 0} (s : Scoring F) where
  abbrev pub compare : Op → F → F → Bool
  compare gt a b = s.lt b a
  compare ge a b = s.le b a
  compare lt a b = s.lt a b
  compare le a b = s.le a b
  compare ne a b = s.ne a b

  unfoldable pub evaluate : Dict F → Condition F → Bool
  unfolding lookup
  evaluate fv c = elim (lookup c.feature fv) [ none ↦ false | some v ↦ compare c.op v c.threshold ]

  abbrev pub sum_weights : F → List (Condition F) → F
  sum_weights acc [] = acc
  sum_weights acc (c ∷ cs) = sum_weights (s.add acc c.weight) cs

  -- max(a, b) and min(a, b)
  abbrev pub max_of : F → F → F
  max_of a b = if s.lt a b then b else a

  abbrev pub min_of : F → F → F
  min_of a b = if s.lt b a then b else a

  abbrev pub or_one : F → F
  or_one a = if s.ne a s.nought then a else s.one

  abbrev pub evidence_of : Dict F → Condition F → Evidence F
  evidence_of fv c = record { condition = c; actual = lookup c.feature fv; met = evaluate fv c }

  -- `Rule.score`, first component.
  unfoldable pub rule_score : Rule F → Dict F → F
  unfolding evaluate
  rule_score r fv =
      let total = or_one (sum_weights s.nought r.conditions) in
      let hit = sum_weights s.nought (keep_if (evaluate fv) r.conditions) in
      let penalty = sum_weights s.nought (keep_if (evaluate fv) r.anti_conditions) in
      max_of s.nought (s.sub (s.div hit total) penalty)

  abbrev pub multiplier_of : Dict F → Rule F → F
  multiplier_of multipliers r = or_else (lookup r.id multipliers) s.one

  abbrev pub fired_of : Dict F → Dict F → Rule F → Fired F
  fired_of multipliers fv r =
      let raw = rule_score r fv in
      record {
        adjusted = min_of s.one (s.mul raw (multiplier_of multipliers r));
        raw_score = raw;
        evidence = map (evidence_of fv) (keep_if (evaluate fv) r.conditions);
        anti_evidence = map (evidence_of fv) (keep_if (evaluate fv) r.anti_conditions);
        rule = r;
      }

  abbrev pub reaches : Fired F → Bool
  reaches t = s.le t.rule.min_score t.adjusted

  unfoldable pub fired_rules : Dict F → Dict F → List (Rule F) → List (Fired F)
  unfolding rule_score
  fired_rules multipliers fv rules = keep_if reaches (map (fired_of multipliers fv) rules)

  -- sort(key=adjusted, reverse=True), which is stable
  abbrev pub insert_best : Fired F → List (Fired F) → List (Fired F)
  insert_best t [] = t ∷ []
  insert_best t (u ∷ us) =
      let rest = insert_best t us in if s.lt t.adjusted u.adjusted then u ∷ rest else t ∷ u ∷ us

  unfoldable pub best_first : List (Fired F) → List (Fired F)
  best_first [] = []
  best_first (t ∷ ts) = insert_best t (best_first ts)

  unfoldable pub score_to_confidence : F → String
  score_to_confidence score =
      if s.le s.high score then "high" else if s.le s.medium score then "medium" else "low"

  abbrev pub cause_of : Dict F → ℕ → Fired F → RankedCause F
  cause_of multipliers rank t = record {
    rank = rank;
    cause_id = t.rule.id;
    display_name = t.rule.display_name;
    description = t.rule.description;
    score = s.round4 t.adjusted;
    raw_score = s.round4 t.raw_score;
    multiplier = s.round4 (multiplier_of multipliers t.rule);
    confidence = score_to_confidence t.adjusted;
    evidence = t.evidence;
    anti_evidence = t.anti_evidence;
    experiments = t.rule.experiments;
  }

  -- enumerate(..., start)
  abbrev pub causes_from : Dict F → ℕ → List (Fired F) → List (RankedCause F)
  causes_from multipliers rank [] = []
  causes_from multipliers rank (t ∷ ts) =
      cause_of multipliers rank t ∷ causes_from multipliers (suc rank) ts

  abbrev pub top_summary : RankedCause F → Text → Text
  top_summary top rest =
      codes "最可能的根因是「"
      ++ (top.display_name
          ++ (codes "」(置信度 "
              ++ (codes top.confidence
                  ++ (codes ", score=" ++ (s.format2 top.score ++ (codes ")。" ++ rest))))))

  unfoldable pub build_summary : List (RankedCause F) → Text
  build_summary [] = codes "No significant root cause identified from available data."
  build_summary (top ∷ []) = top_summary top []
  build_summary (top ∷ second ∷ others) =
      top_summary top (codes "次要候选：「" ++ (second.display_name ++ codes "」。"))

  abbrev pub is_low_risk : ExperimentSuggestion F → Bool
  is_low_risk e = str_eq e.risk "low"

  abbrev pub first_of : List (ExperimentSuggestion F) → Option (ExperimentSuggestion F)
  first_of [] = none
  first_of (e ∷ es) = some e

  abbrev pub low_or_any :
      List (ExperimentSuggestion F)
      → List (ExperimentSuggestion F)
      → Option (ExperimentSuggestion F)
  low_or_any [] exps = first_of exps
  low_or_any (e ∷ es) exps = some e

  abbrev pub hint_text : (Dict (Value F) → Text) → Dict (Value F) → Text
  hint_text show [] = []
  hint_text show (h ∷ hs) = codes "（参数参考：" ++ (show (h ∷ hs) ++ codes "）")

  unfoldable pub build_next_action : (Dict (Value F) → Text) → List (RankedCause F) → Text
  build_next_action show [] = codes "建议先检查 timing report 和 congestion map，收集更多数据。"
  build_next_action show (top ∷ others) =
      elim (low_or_any (keep_if is_low_risk top.experiments) top.experiments) [
        | none ↦ codes "暂无具体实验建议，请参考 symptoms 手动分析。"
        | some e ↦ codes "建议优先执行：" ++ (e.action ++ (codes " " ++ hint_text show e.param_hint))
      ]

  unfoldable pub infer :
      (Dict (Value F) → Text) → Dict F → Dict F → List (Rule F) → InferenceReport F
  unfolding fired_rules best_first score_to_confidence build_summary build_next_action
  infer show multipliers fv rules =
      let causes =
        causes_from multipliers 1 (take 3 (best_first (fired_rules multipliers fv rules))) in
      record {
        hypotheses = causes;
        summary = build_summary causes;
        next_action = build_next_action show causes;
      }
