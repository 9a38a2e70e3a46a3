-- ===== src/Queue/Lifecycle.antt =====
-- The steps of a worker and its clients on one table, and how they move its jobs.
use mathlib.Core.Option
use eda_agent.Base.{ℕ, Option}
use eda_agent.Queue.System.{World}
use eda_agent.Queue.Evolution.{IsSound, Evolves}

module _ {F : Type 0} where
  -- One step keeps the table sound, and each status leads on.
  abbrev Keeps : ℕ → World F → World F → Type 0
  Keeps pid w v = IsSound pid v × Evolves w.jobs v.jobs
