-- ===== src/Inference/Scale.antt =====
-- The floats of agent/inference/weights.py: the operations and constants that it uses are a
-- parameter, and the laws of the order of floats other than NaN stand in `IsScale`.
use eda_agent.Base.{◌≡◌, Bool, true, false}

pub record Scale (F : Type 0) : Type 0 where
  pub one : F
  pub add : F → F → F
  pub sub : F → F → F
  pub half : F → F
  pub le : F → F → Bool
  pub min_multiplier : F
  pub max_multiplier : F

pub record IsScale {F : Type 0} (s : Scale F) : Type 0 where
  pub le_refl : (a : F) → s.le a a ≡ true
  pub le_total : (a b : F) → s.le a b ≡ false → s.le b a ≡ true
  pub limits : s.le s.min_multiplier s.max_multiplier ≡ true
