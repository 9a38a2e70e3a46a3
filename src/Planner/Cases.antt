-- ===== src/Planner/Cases.antt =====
-- agent/planner.py: the similar cases of a turn and their cache in the scratchpad, and `Planner.run`.
-- Only `_refresh_similar_cases` writes the cache, so a value there that is no dict counts as empty.
use eda_agent.Base.{
  ℕ, ◌+◌, String, Bool, true, false, Option, none, some, if◌then◌else◌, Text, codes, nonempty,
  strip, ltb, Outcome, returned, raised,
}
use eda_agent.Json.{Value, Fields}
use eda_agent.Json.Value.{null, arr, obj}
use eda_agent.Json.Items.{nil}
use eda_agent.Json.Fields.{end, field}
use eda_agent.Memory.History.{Memory, add_user}
use eda_agent.Memory.Scratchpad.{set, get}
use eda_agent.Tools.Guardrails.{truthy}
use eda_agent.Tools.Calls.{get_field, set_field}
use eda_agent.Planner.Model.{Services, Conversation}
use eda_agent.Planner.React.{react}

module _ {F : Type 0} where
  unfoldable pub entries : Fields F → ℕ
  entries end = 0
  entries (field k v fs) = 1 + entries fs

  abbrev pub as_fields : Value F → Fields F
  as_fields (obj fs) = fs
  as_fields _ = end

  abbrev pub cache_of : Memory F → Fields F
  cache_of mem = as_fields (get mem "_cases_cache" null)

  abbrev pub without_first : Fields F → Fields F
  without_first end = end
  without_first (field k v fs) = fs

  -- The bound on the cache, `_CASE_CACHE_MAX`.
  unfoldable pub bounded : Fields F → Fields F
  unfolding entries
  bounded cache = if ltb 8 (entries cache) then without_first cache else cache

  abbrev pub store_cases : Memory F → Fields F → Value F → Memory F
  store_cases mem cache similar = set (set mem "_cases_cache" (obj cache)) "_similar_cases" similar

module _ {F W : Type 0} (sv : Services F W) where
  -- What the lookup found, or [].
  abbrev pub found_cases : Outcome (Value F) → Value F
  found_cases (raised message) = arr nil
  found_cases (returned v) = if truthy sv.floats v then v else arr nil

  abbrev pub look_up_cases : Memory F → String → Option (Value F) → W → Memory F × W
  look_up_cases mem query (some cached) w = (set mem "_similar_cases" cached, w)
  look_up_cases mem query none w =
      let (outcome, w') = sv.search_cases query w in
      let similar = found_cases outcome in
      (store_cases mem (bounded (set_field query similar (cache_of mem))) similar, w')

  -- The flag says whether the query has any text.
  abbrev pub refresh_for : Bool → Memory F → String → W → Memory F × W
  refresh_for false mem query w = (set mem "_similar_cases" (arr nil), w)
  refresh_for true mem query w = look_up_cases mem query (get_field query (cache_of mem)) w

  unfoldable pub refresh_similar_cases : Memory F → String → W → Memory F × W
  unfolding strip set get get_field set_field bounded
  refresh_similar_cases mem message w = refresh_for (nonempty (strip message)) mem (strip message) w

  unfoldable pub run : ℕ → String → Conversation F W → Option Text × Conversation F W
  unfolding refresh_similar_cases add_user react
  run max_iterations message c =
      let (mem, w) = refresh_similar_cases c.memory message c.world in
      react sv max_iterations 0 (record c { memory = add_user mem (codes message); world = w })
