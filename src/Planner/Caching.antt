-- ===== src/Planner/Caching.antt =====
-- The cache of similar cases stays small, and answers a query that was asked before.
use eda_agent.Base.{
  ◌+◌, ◌≤◌, ◌≡◌, refl, sym, ap, subst, ◌∙◌, String, Bool, true, false, Option, none, some, str_eq,
  str_eq_refl, nonempty, strip, arith, Bool-cases, inl, inr,
}
use eda_agent.Json.{Value, Fields}
use eda_agent.Json.Value.{null, arr, obj}
use eda_agent.Json.Items.{nil}
use eda_agent.Json.Fields.{end, field}
use eda_agent.Memory.History.{Memory}
use eda_agent.Memory.Scratchpad.{set, get}
use eda_agent.Memory.Facts.{get-set}
use eda_agent.Tools.Calls.{get_field, set_field}
use eda_agent.Tools.Summaries.{get_field-set_field}
use eda_agent.Planner.Model.{Services}
use eda_agent.Planner.Cases.{
  entries, as_fields, cache_of, bounded, store_cases, found_cases, look_up_cases, refresh_for,
  refresh_similar_cases,
}

module _ {F : Type 0} where
  entries-set_field :
      (k : String) (v : Value F) (fs : Fields F) → entries (set_field k v fs) ≤ entries fs + 1
  unfolding entries set_field
  entries-set_field k v end = omega arith
  entries-set_field k v (field j w fs) = ground (arith, entries-set_field k v fs)

  entries-bounded : (fs : Fields F) → entries fs ≤ 9 → entries (bounded fs) ≤ 8
  unfolding bounded entries
  entries-bounded end h = omega arith
  entries-bounded (field k v fs) h = ground arith

  cached_after :
      (k : String) (v : Value F) (fs : Fields F)
      → get_field k fs ≡ none
      → get_field k (bounded (set_field k v fs)) ≡ some v
  unfolding bounded get_field set_field entries
  cached_after k v end h = ground (arith, str_eq_refl k)
  cached_after k v (field j w fs) h = elim (Bool-cases (str_eq j k)) [
    | inl e ↦ ground (arith, e)
    | inr e ↦ ground (arith, e, get_field-set_field k k v fs, str_eq_refl k)
  ]

  cache_of-store_cases :
      (mem : Memory F) (cache : Fields F) (similar : Value F)
      → cache_of (store_cases mem cache similar) ≡ cache
  cache_of-store_cases mem cache similar = ap as_fields (
      get-set (set mem "_cases_cache" (obj cache)) "_similar_cases" "_cases_cache" similar null
      ∙ get-set mem "_cases_cache" "_cases_cache" (obj cache) null)

  cache_of-set :
      (mem : Memory F) (similar : Value F)
      → cache_of (set mem "_similar_cases" similar) ≡ cache_of mem
  cache_of-set mem similar = ap as_fields (get-set mem "_similar_cases" "_cases_cache" similar null)

module _ {F W : Type 0} (sv : Services F W) where
  look_up_small :
      (mem : Memory F) (query : String) (o : Option (Value F)) (w : W)
      → entries (cache_of mem) ≤ 8
      → entries (cache_of (look_up_cases sv mem query o w).0) ≤ 8
  look_up_small mem query (some cached) w h =
      subst (λ fs. entries fs ≤ 8) (sym (cache_of-set mem cached)) h
  look_up_small mem query none w h =
      let similar = found_cases sv (sv.search_cases query w).0 in
      let cache = set_field query similar (cache_of mem) in
      subst (λ fs. entries fs ≤ 8) (sym (cache_of-store_cases mem (bounded cache) similar))
        (entries-bounded cache (omega (arith, h, entries-set_field query similar (cache_of mem))))

  refresh_small :
      (b : Bool) (mem : Memory F) (query : String) (w : W)
      → entries (cache_of mem) ≤ 8
      → entries (cache_of (refresh_for sv b mem query w).0) ≤ 8
  refresh_small false mem query w h =
      subst (λ fs. entries fs ≤ 8) (sym (cache_of-set mem (arr nil))) h
  refresh_small true mem query w h = look_up_small mem query (get_field query (cache_of mem)) w h

  -- The same cases, and nothing is looked up.
  abbrev pub SameCases : Memory F → W → Memory F × W → Type 0
  SameCases once u again =
      (again.1 ≡ u) × (get again.0 "_similar_cases" null ≡ get once "_similar_cases" null)

  look_up_twice :
      (mem : Memory F) (query : String) (o : Option (Value F)) (w u : W)
      → get_field query (cache_of mem) ≡ o
      → let once = (look_up_cases sv mem query o w).0 in
        SameCases once u (look_up_cases sv once query (get_field query (cache_of once)) u)
  look_up_twice mem query (some cached) w u e =
      let once = set mem "_similar_cases" cached in
      subst (λ o. SameCases once u (look_up_cases sv once query o u))
        (sym (ap (get_field query) (cache_of-set mem cached) ∙ e))
        (
          refl,
          get-set once "_similar_cases" "_similar_cases" cached null
              ∙ sym (get-set mem "_similar_cases" "_similar_cases" cached null),
        )
  look_up_twice mem query none w u e =
      let similar = found_cases sv (sv.search_cases query w).0 in
      let cache = bounded (set_field query similar (cache_of mem)) in
      let kept = set mem "_cases_cache" (obj cache) in
      let once = store_cases mem cache similar in
      subst (λ o. SameCases once u (look_up_cases sv once query o u))
        (sym (
          ap (get_field query) (cache_of-store_cases mem cache similar)
          ∙ cached_after query similar (cache_of mem) e))
        (
          refl,
          get-set once "_similar_cases" "_similar_cases" similar null
              ∙ sym (get-set kept "_similar_cases" "_similar_cases" similar null),
        )

  same_cases :
      (b : Bool) (mem : Memory F) (query : String) (w u : W)
      → let once = (refresh_for sv b mem query w).0 in
        SameCases once u (refresh_for sv b once query u)
  same_cases false mem query w u = (
    refl,
    get-set (set mem "_similar_cases" (arr nil)) "_similar_cases" "_similar_cases" (arr nil) null
        ∙ sym (get-set mem "_similar_cases" "_similar_cases" (arr nil) null),
  )
  same_cases true mem query w u = look_up_twice mem query (get_field query (cache_of mem)) w u refl

  -- A cache of similar cases with at most 8 entries stays so, and a second refresh with the same
  -- message finds the same cases and looks nothing up, also when the first look-up had failed.
  pub refresh_twice :
      (mem : Memory F) (message : String) (w u : W)
      → entries (cache_of mem) ≤ 8
      → let once = (refresh_similar_cases sv mem message w).0 in
        (entries (cache_of once) ≤ 8) × SameCases once u (refresh_similar_cases sv once message u)
  unfolding refresh_similar_cases
  refresh_twice mem message w u h =
      let b = nonempty (strip message) in
      (refresh_small b mem (strip message) w h, same_cases b mem (strip message) w u)
