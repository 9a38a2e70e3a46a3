-- ===== src/Planner/Refresh.antt =====
-- What the refresh of the similar cases leaves alone, and worlds that count.
use eda_agent.Base.{ℕ, suc, String, ◌≡◌, refl, ◌∙◌, Bool, true, false, Option, none, some}
use eda_agent.Json.{Value}
use eda_agent.Json.Dict.{Dict}
use eda_agent.Json.Value.{arr}
use eda_agent.Json.Items.{nil}
use eda_agent.Tools.Calls.{get_field}
use eda_agent.Planner.Cases.{cache_of, look_up_cases, refresh_for}
use eda_agent.Memory.History.{Memory}
use eda_agent.Memory.Scratchpad.{set}
use eda_agent.Memory.Kept.{set-SameTurns}
use eda_agent.Planner.Model.{Services}

-- A world in which `count` is the number of calls of `_call_llm` so far.
pub record Counts {F W : Type 0} (sv : Services F W) (count : W → ℕ) : Type 0 where
  pub asks : (mem : Memory F) (w : W) → count (sv.call_llm mem w).1 ≡ suc (count w)
  pub executes :
      (name : String) (args : Dict (Value F)) (w : W) → count (sv.execute name args w).1 ≡ count w
  pub searches : (query : String) (w : W) → count (sv.search_cases query w).1 ≡ count w
  pub names : (w : W) → count (sv.fresh_id w).1 ≡ count w

module _ {F W : Type 0} (sv : Services F W) where
  max_messages-look_up :
      (mem : Memory F) (query : String) (o : Option (Value F)) (w : W)
      → (look_up_cases sv mem query o w).0.max_messages ≡ mem.max_messages
  max_messages-look_up mem query (some v) w = (set-SameTurns mem "_similar_cases" v).0
  max_messages-look_up mem query none w =
      (set-SameTurns (set mem "_cases_cache" _) "_similar_cases" _).0
      ∙ (set-SameTurns mem "_cases_cache" _).0

  pub max_messages-refresh :
      (b : Bool) (mem : Memory F) (query : String) (w : W)
      → (refresh_for sv b mem query w).0.max_messages ≡ mem.max_messages
  max_messages-refresh false mem query w = (set-SameTurns mem "_similar_cases" (arr nil)).0
  max_messages-refresh true mem query w =
      max_messages-look_up mem query (get_field query (cache_of mem)) w

module _ {F W : Type 0} (sv : Services F W) (count : W → ℕ) (counts : Counts sv count) where
  count-look_up :
      (mem : Memory F) (query : String) (o : Option (Value F)) (w : W)
      → count (look_up_cases sv mem query o w).1 ≡ count w
  count-look_up mem query (some v) w = refl
  count-look_up mem query none w = counts.searches query w

  pub count-refresh :
      (t : Bool) (mem : Memory F) (query : String) (w : W)
      → count (refresh_for sv t mem query w).1 ≡ count w
  count-refresh false mem query w = refl
  count-refresh true mem query w = count-look_up mem query (get_field query (cache_of mem)) w
