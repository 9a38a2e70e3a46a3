-- ===== src/Planner/Pairing.antt =====
-- `Planner.run` on a memory without a limit leaves no tool message without its call.
use eda_agent.Base.{
  nonempty, strip, ℕ, zero, suc, String, ◌≡◌, refl, sym, subst, ◌∙◌, map, Bool, true, false, Option,
  none, some, List, [], ◌∷◌, if◌then◌else◌, mem_str, Text, codes, All, Outcome, returned, raised,
  Option-cases, inl, inr, or_else,
}
use eda_agent.Json.{Value}
use eda_agent.Json.Value.{arr, obj}
use eda_agent.Json.Items.{nil}
use eda_agent.Tools.Calls.{get_field, set_field}
use eda_agent.Json.Dict.{Dict}
use eda_agent.Memory.History.{
  Memory, ToolCall, assistant, user, plain, add_user, add_assistant, add_tool_result,
}
use eda_agent.Memory.Wire.{discard, declared_by}
use eda_agent.Memory.Pairing.{IsPaired, pending_from}
use eda_agent.Memory.Scratchpad.{set, as_dict, text}
use eda_agent.Memory.Kept.{SameTurns, set-SameTurns}
use eda_agent.Planner.Model.{
  Call, Choice, Response, tool_call, trace, iteration_start, Services, Conversation,
}
use eda_agent.Planner.React.{
  Ran, broke, ran, Verdict, answered, failed, stopped, onward, after_tool, call_with, execute_call,
  execute_calls, or_job, remember, text_of, after_calls, after_message, after_choices, after_llm,
  round, last_word, react, emit,
}
use eda_agent.Planner.Cases.{
  cache_of, found_cases, bounded, store_cases, look_up_cases, refresh_for, refresh_similar_cases,
  run,
}
use eda_agent.Planner.Waiting.{
  IdsAre, declared-IdsAre, Waits, Paired, Paired-Waits, add-Waits, update-Waits,
  add_tool_result-Waits, AllWait, AllWait-discard, AllWait-refl,
}

module _ {F W : Type 0} (sv : Services F W) where
  -- After a call of id `i`: an exception leaves a paired memory, and else the other ids still wait.
  abbrev Served : List String → Ran F × Conversation F W → Type 0
  Served ids (broke, c) = Paired c.memory
  Served ids (ran found, c) = (waiting : List String) × Waits waiting c.memory × AllWait waiting ids

  after_tool-Served :
      (name : String) (args : Dict (Value F)) (i : String) (ids waiting : List String)
      (o : Outcome Text) (c : Conversation F W)
      → Waits waiting c.memory
      → AllWait waiting (i ∷ ids)
      → nonempty i ≡ true
      → mem_str i ids ≡ false
      → Served ids (after_tool sv name args i o c)
  after_tool-Served name args i ids waiting (raised m) c h a e n = Paired-Waits waiting c.memory h
  after_tool-Served name args i ids waiting (returned r) c h a e n = (
    discard i waiting,
    update-Waits sv.loads (discard i waiting) (add_tool_result c.memory name r (some i)) (some args)
        (text r) (add_tool_result-Waits c.memory name r i waiting h a.0 e),
    AllWait-discard i waiting ids n a.1,
  )

  call_with-Served :
      (name i : String) (ids waiting : List String) (args : Option (Dict (Value F)))
      (c : Conversation F W)
      → Waits waiting c.memory
      → AllWait waiting (i ∷ ids)
      → nonempty i ≡ true
      → mem_str i ids ≡ false
      → Served ids (call_with sv name i args c)
  call_with-Served name i ids waiting none c h a e n = Paired-Waits waiting c.memory h
  call_with-Served name i ids waiting (some args) c h a e n =
      after_tool-Served name args i ids waiting (sv.execute name args c.world).0
        (record (emit (tool_call name args) c) { world = (sv.execute name args c.world).1 }) h a e n

  execute_call-Served :
      (call : Call F) (i : String) (ids waiting : List String) (c : Conversation F W)
      → call.stored.id ≡ some i
      → Waits waiting c.memory
      → AllWait waiting (i ∷ ids)
      → nonempty i ≡ true
      → mem_str i ids ≡ false
      → Served ids (execute_call sv call c)
  unfolding execute_call
  execute_call-Served call i ids waiting c q h a e n = elim (Option-cases call.name) [
    | inl m ↦ rw m (Paired-Waits waiting c.memory h)
    | inr (name, m) ↦
        rw (m, q)
          (call_with-Served name i ids waiting
            (as_dict (sv.loads (or_else call.arguments (codes "{}"))))
            (record c { world = (sv.fresh_id c.world).1 }) h a e n)
  ]

  next_call-Paired :
      (calls : List (Call F)) (job : Option (Dict (Value F))) (ids : List String) (r : Ran F)
      (c : Conversation F W)
      → Served ids (r, c)
      → ((found : Option (Dict (Value F))) (waiting : List String)
          → Waits waiting c.memory
          → AllWait waiting ids
          → Paired (execute_calls sv calls found c).1.memory)
      → Paired
          (elim r as (λ x. Ran F × Conversation F W) [
            | broke ↦ (broke, c)
            | ran found ↦ execute_calls sv calls (or_job sv found job) c
          ]).1.memory
  next_call-Paired calls job ids broke c h rest = h
  next_call-Paired calls job ids (ran found) c h rest = rest (or_job sv found job) h.0 h.1 h.2

  execute_calls-Paired :
      (calls : List (Call F)) (ids : List String) (job : Option (Dict (Value F)))
      (waiting : List String) (c : Conversation F W)
      → IdsAre calls ids
      → Waits waiting c.memory
      → AllWait waiting ids
      → Paired (execute_calls sv calls job c).1.memory
  unfolding execute_calls
  execute_calls-Paired [] ids job waiting c i h a = Paired-Waits waiting c.memory h
  execute_calls-Paired (call ∷ calls) [] job waiting c i h a = elim i [ ]
  execute_calls-Paired (call ∷ calls) (x ∷ xs) job waiting c i h a =
      let one = execute_call sv call c in
      next_call-Paired calls job xs one.0 one.1
        (execute_call-Served call x xs waiting c i.0 h a i.1 i.2)
        (λ found still k b. execute_calls-Paired calls xs found still one.1 i.3 k b)

  abbrev pub HasIds : Choice F → Type 0
  HasIds choice = (ids : List String) × IdsAre choice.calls ids

  waiting_of :
      (mem : Memory F) → Paired mem → (q : List String) × (pending_from [] mem.history ≡ some q)
  waiting_of mem h = elim (Option-cases (pending_from [] mem.history)) [
    | inl e ↦ let p = h.1 in cc (rw e at p)
    | inr r ↦ r
  ]

  add_assistant-Waits :
      (mem : Memory F) (content : Text) (calls : Option (List (ToolCall F)))
      → Paired mem
      → Waits (declared_by calls) (add_assistant mem content calls)
  unfolding add_assistant
  add_assistant-Waits mem content calls h =
      let (q, e) = waiting_of mem h in
      add-Waits mem (record (plain assistant content) { tool_calls = calls }) q (declared_by calls)
        (h.0, e) refl

  remember-Paired :
      (content : Text) (mem : Memory F) → Paired mem → Paired (remember sv content [] mem)
  remember-Paired [] mem h = h
  remember-Paired (t ∷ ts) mem h =
      Paired-Waits _ (add_assistant mem (t ∷ ts) none) (add_assistant-Waits mem (t ∷ ts) none h)

  remember-Waits :
      (content : Text) (call : Call F) (calls : List (Call F)) (ids : List String) (mem : Memory F)
      → IdsAre (call ∷ calls) ids
      → Paired mem
      → Waits ids (remember sv content (call ∷ calls) mem)
  unfolding declared_by
  remember-Waits content call calls ids mem i h =
      let stored = map (λ (d : Call F). d.stored) (call ∷ calls) in
      subst (λ w. Waits w (remember sv content (call ∷ calls) mem))
        (declared-IdsAre (call ∷ calls) ids i) (add_assistant-Waits mem content (some stored) h)

  after_calls-Paired :
      (choice : Choice F) (r : Ran F) (c : Conversation F W)
      → Paired c.memory
      → Paired (after_calls sv choice (r, c)).1.memory
  after_calls-Paired choice broke c h = h
  after_calls-Paired choice (ran (some job)) c h = h
  after_calls-Paired choice (ran none) c h = h

  after_message-Paired :
      (choice : Choice F) (calls : List (Call F)) (ids : List String) (c : Conversation F W)
      → IdsAre calls ids
      → Paired c.memory
      → Paired
          (after_message sv choice calls
            (record c { memory = remember sv (text_of sv choice) calls c.memory })).1.memory
  after_message-Paired choice [] ids c i h = remember-Paired (text_of sv choice) c.memory h
  after_message-Paired choice (call ∷ calls) ids c i h =
      let c' = record c { memory = remember sv (text_of sv choice) (call ∷ calls) c.memory } in
      let done = execute_calls sv (call ∷ calls) none c' in
      after_calls-Paired choice done.0 done.1 (
        execute_calls-Paired (call ∷ calls) ids none ids c' i
          (remember-Waits (text_of sv choice) call calls ids c.memory i h) (AllWait-refl ids))

  after_choices-Paired :
      (choices : List (Choice F)) (c : Conversation F W)
      → All HasIds choices
      → Paired c.memory
      → Paired (after_choices sv choices c).1.memory
  after_choices-Paired [] c g h = h
  after_choices-Paired (choice ∷ others) c g h =
      after_message-Paired choice choice.calls g.0.0 c g.0.1 h

  -- In every response the calls of a choice have ids, none of them empty and none of them twice.
  abbrev pub NamesCalls : Type 0
  NamesCalls =
      (mem : Memory F) (w : W) (r : Response F)
      → (sv.call_llm mem w).0 ≡ returned r
      → All HasIds r.choices

  traced-Paired :
      (b : Bool) (c : Conversation F W)
      → Paired c.memory
      → Paired (if b then emit trace c else c).memory
  traced-Paired true c h = h
  traced-Paired false c h = h

  after_llm-Paired :
      (o : Outcome (Response F)) (c : Conversation F W)
      → ((r : Response F) → o ≡ returned r → All HasIds r.choices)
      → Paired c.memory
      → Paired (after_llm sv o c).1.memory
  after_llm-Paired (raised m) c g h = h
  after_llm-Paired (returned r) c g h =
      after_choices-Paired r.choices (if r.traced then emit trace c else c) (g r refl)
        (traced-Paired r.traced c h)

  round-Paired :
      NamesCalls → (i : ℕ) (c : Conversation F W) → Paired c.memory → Paired (round sv i c).1.memory
  unfolding round
  round-Paired good i c h =
      let asked = sv.call_llm c.memory c.world in
      after_llm-Paired asked.0 (record (emit (iteration_start i) c) { world = asked.1 })
        (good c.memory c.world) h

  next_round-Paired :
      (left i : ℕ) (v : Verdict) (c : Conversation F W)
      → Paired c.memory
      → Paired (react sv left (suc i) c).1.memory
      → Paired
          (elim v as (λ x. Option Text × Conversation F W) [
            | answered t ↦ (some t, c)
            | failed ↦ (none, c)
            | stopped ↦ last_word sv c
            | onward ↦ react sv left (suc i) c
          ]).1.memory
  next_round-Paired left i (answered t) c h rest = h
  next_round-Paired left i failed c h rest = h
  next_round-Paired left i stopped c h rest = h
  next_round-Paired left i onward c h rest = rest

  react-Paired :
      NamesCalls
      → (left i : ℕ) (c : Conversation F W) → Paired c.memory
      → Paired (react sv left i c).1.memory
  unfolding react
  react-Paired good zero i c h = h
  react-Paired good (suc left) i c h =
      let r = round sv (suc i) c in
      let g = round-Paired good (suc i) c h in
      next_round-Paired left i r.0 r.1 g (react-Paired good left (suc i) r.1 g)

  same-Paired : (old new : Memory F) → SameTurns old new → Paired old → Paired new
  same-Paired old new s h = (s.0 ∙ h.0, subst IsPaired (sym s.1) h.1)

  look_up-Paired :
      (mem : Memory F) (query : String) (o : Option (Value F)) (w : W)
      → Paired mem
      → Paired (look_up_cases sv mem query o w).0
  look_up-Paired mem query (some v) w h =
      same-Paired mem (set mem "_similar_cases" v) (set-SameTurns mem "_similar_cases" v) h
  look_up-Paired mem query none w h =
      let similar = found_cases sv (sv.search_cases query w).0 in
      let cache = bounded (set_field query similar (cache_of mem)) in
      let kept = set mem "_cases_cache" (obj cache) in
      same-Paired kept (store_cases mem cache similar) (set-SameTurns kept "_similar_cases" similar)
        (same-Paired mem kept (set-SameTurns mem "_cases_cache" (obj cache)) h)

  refresh-Paired :
      (b : Bool) (mem : Memory F) (query : String) (w : W)
      → Paired mem
      → Paired (refresh_for sv b mem query w).0
  refresh-Paired false mem query w h =
      same-Paired mem (set mem "_similar_cases" (arr nil))
        (set-SameTurns mem "_similar_cases" (arr nil)) h
  refresh-Paired true mem query w h = look_up-Paired mem query (get_field query (cache_of mem)) w h

  add_user-Paired : (mem : Memory F) (content : Text) → Paired mem → Paired (add_user mem content)
  unfolding add_user
  add_user-Paired mem content h =
      let (q, e) = waiting_of mem h in
      Paired-Waits [] (add_user mem content) (add-Waits mem (plain user content) q [] (h.0, e) refl)

  -- If in every response of the model the calls of a choice have ids that are not empty and
  -- differ, and the memory has no limit, then a turn of the planner keeps the history paired, also
  -- when an exception leaves it: every tool message answers a call of the turn before it.
  pub run-IsPaired :
      NamesCalls
      → (max_iterations : ℕ) (message : String) (c : Conversation F W) → c.memory.max_messages ≡ 0
      → IsPaired c.memory.history
      → IsPaired (run sv max_iterations message c).1.memory.history
  unfolding run refresh_similar_cases
  run-IsPaired good max_iterations message c unlimited h =
      let fresh = refresh_for sv (nonempty (strip message)) c.memory (strip message) c.world in
      let mem = add_user fresh.0 (codes message) in
      (react-Paired good max_iterations 0 (record c { memory = mem; world = fresh.1 })
        (add_user-Paired fresh.0 (codes message) (
          refresh-Paired (nonempty (strip message)) c.memory (strip message) c.world
            (unlimited, h)))).1
