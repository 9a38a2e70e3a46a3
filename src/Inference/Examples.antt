-- ===== src/Inference/Examples.antt =====
-- Multipliers, features and scores in hundredths.
use mathlib.Core.List.{Perm}
use eda_agent.Base.{
  ℕ, ◌+◌, ◌-◌, ◌*◌, ◌/◌, ◌≡◌, refl, List, [], ◌∷◌, leb, ltb, ◌==◌, not, codes, take, All, arith,
  le→leb,
}
use eda_agent.Inference.Scale.{Scale, IsScale}
use eda_agent.Inference.Weights.{update_weights}
use eda_agent.Inference.Engine.{Scoring, gt, Rule, Fired, fired_rules, causes_from, infer}
use eda_agent.Inference.Ranking.{IsOrder, IsBestFirst, Counts, infer_lem}
use eda_agent.Inference.Bounds.{AllBounded, update_weights-AllBounded}

abbrev hundredths : Scale ℕ
hundredths = record {
  one = 100;
  add = λ a b. a + b;
  sub = λ a b. a - b;
  half = λ a. a / 2;
  le = leb;
  min_multiplier = 10;
  max_multiplier = 200;
}

hundredths-IsScale : IsScale hundredths
hundredths-IsScale = record {
  le_refl = λ a. le→leb a a (omega arith);
  le_total = λ a b n. grind (arith, le→leb a b, le→leb b a);
  limits = refl;
}

update_weights-AllBounded_example :
    AllBounded hundredths
      (update_weights hundredths (("drc", 198) ∷ []) "drc" ("cts" ∷ "drc" ∷ []) 5)
update_weights-AllBounded_example =
    update_weights-AllBounded hundredths hundredths-IsScale (("drc", 198) ∷ []) "drc"
      ("cts" ∷ "drc" ∷ []) 5

abbrev scoring : Scoring ℕ
scoring = record {
  nought = 0;
  one = 100;
  add = λ a b. a + b;
  sub = λ a b. a - b;
  mul = λ a b. (a * b) / 100;
  div = λ a b. (100 * a) / b;
  lt = ltb;
  le = leb;
  ne = λ a b. not (a == b);
  high = 65;
  medium = 35;
  round4 = λ a. a;
  format2 = λ a. [];
}

scoring-IsOrder : IsOrder scoring
scoring-IsOrder = record {
  lt_irrefl = λ a. ground arith;
  lt_asym = λ a b h. ground arith;
  not_lt_trans = λ a b c h k. ground arith;
}

abbrev detour : Rule ℕ
detour = record {
  id = "routing_detour";
  display_name = codes "Routing detour";
  description = [];
  conditions = record { feature = "hotspots"; op = gt; threshold = 3; weight = 30 } ∷ [];
  anti_conditions = [];
  min_score = 30;
  experiments = [];
}

abbrev skew : Rule ℕ
skew = record detour { id = "cts_skew"; min_score = 20 }

infer_lem_example :
    (ranked : List (Fired ℕ)) × Perm ranked
      (fired_rules scoring (("cts_skew", 50) ∷ []) (("hotspots", 7) ∷ []) (skew ∷ detour ∷ []))
    × IsBestFirst scoring ranked
    × All (Counts scoring) ranked
    × ((infer scoring
          (λ d. [])
          (("cts_skew", 50) ∷ [])
          (("hotspots", 7) ∷ [])
          (skew ∷ detour ∷ [])).hypotheses
        ≡ causes_from scoring (("cts_skew", 50) ∷ []) 1 (take 3 ranked))
infer_lem_example =
    infer_lem scoring scoring-IsOrder (λ d. []) (("cts_skew", 50) ∷ []) (("hotspots", 7) ∷ [])
      (skew ∷ detour ∷ [])
