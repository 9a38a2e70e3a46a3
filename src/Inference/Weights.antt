-- ===== src/Inference/Weights.antt =====
-- agent/inference/weights.py: `_clamp` and `update_weights`. The multipliers read from the database
-- are an argument, and the updates are what is written back.
use eda_agent.Base.{String, List, [], ◌∷◌, if◌then◌else◌, str_eq, mem_str, or_else}
use eda_agent.Json.Dict.{Dict, lookup, insert}
use eda_agent.Inference.Scale.{Scale}

module _ {F : Type 0} (s : Scale F) where
  -- Python's min(a, b) and max(a, b).
  abbrev pub smaller : F → F → F
  smaller a b = if s.le a b then a else b

  abbrev pub larger : F → F → F
  larger a b = if s.le b a then a else b

  unfoldable pub clamp : F → F
  clamp v = larger s.min_multiplier (smaller s.max_multiplier v)

  abbrev pub base : Dict F → String → F
  base current rule = or_else (lookup rule current) s.one

  -- `_adj` with a positive and with a negative change.
  unfoldable pub raise_weight : Dict F → String → F → Dict F → Dict F
  unfolding clamp lookup insert
  raise_weight current rule change updates =
      insert rule (clamp (s.add (base current rule) change)) updates

  unfoldable pub lower_weight : Dict F → String → F → Dict F → Dict F
  unfolding clamp lookup insert
  lower_weight current rule change updates =
      insert rule (clamp (s.sub (base current rule) change)) updates

  unfoldable pub lower_all : Dict F → List String → F → Dict F → Dict F
  unfolding lower_weight
  lower_all current [] change updates = updates
  lower_all current (rule ∷ rules) change updates =
      lower_all current rules change (lower_weight current rule change updates)

  unfoldable pub update_weights : Dict F → String → List String → F → Dict F
  unfolding raise_weight lower_weight lower_all
  update_weights current cause [] delta = raise_weight current cause delta []
  update_weights current cause (top ∷ others) delta =
      let raised_weight = raise_weight current cause delta [] in
      if str_eq cause top
      then raised_weight
      else if mem_str cause (top ∷ others)
      then lower_weight current top delta raised_weight
      else lower_all current (top ∷ others) (s.half delta) raised_weight
