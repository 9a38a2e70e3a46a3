-- ===== src/Planner/Bounds.antt =====
-- How long `Planner.run` goes on, what it replies, and how large it leaves the memory.
use eda_agent.Base.{
  nonempty, strip, ℕ, zero, suc, map, String, ◌≡◌, refl, ◌≤◌, ◌+◌, Bool, true, false, Option, none,
  some, List, [], ◌∷◌, if◌then◌else◌, Text, codes, arith, Outcome, returned, raised, Option-cases,
  inl, inr,
}
use eda_agent.Json.{Value}
use eda_agent.Json.Dict.{Dict}
use eda_agent.Planner.Cases.{refresh_for, refresh_similar_cases, run}
use eda_agent.Memory.History.{user, Memory, plain, add_user, add_tool_result}
use eda_agent.Memory.Scratchpad.{text}
use eda_agent.Planner.Model.{
  Call, Choice, Response, iteration_start, trace, tool_call, tool_result, async_submission,
  Services, Conversation,
}
use eda_agent.Planner.React.{
  Ran, broke, ran, Verdict, answered, failed, stopped, onward, last_text, emit, or_job, stops,
  text_of, format_async_submission_reply, after_tool, call_with, execute_call, execute_calls,
  remember, after_calls, after_message, after_choices, after_llm, round, last_word, react,
}
use eda_agent.Planner.Limits.{
  IsWithin, add-IsWithin, add_tool_result-IsWithin, add_assistant-IsWithin, update-IsWithin, rounds,
  rounds-snoc, IsReply, or_text-IsReply,
}
use eda_agent.Planner.Refresh.{Counts, max_messages-refresh, count-refresh}

module _ {F W : Type 0} (sv : Services F W) (count : W → ℕ) (counts : Counts sv count)
    (n a b : ℕ) where
  -- The memory is within its limit, the events tell of `k` rounds, and from `b` rounds and `a`
  -- calls on there was a call for each round.
  abbrev pub Keeps : ℕ → Conversation F W → Type 0
  Keeps k c = IsWithin n c.memory × (rounds c.events ≡ k) × (count c.world + b ≡ k + a)

  after_tool-Keeps :
      (k : ℕ) (name : String) (args : Dict (Value F)) (i : String) (o : Outcome Text)
      (c : Conversation F W)
      → Keeps k c
      → Keeps k (after_tool sv name args i o c).1
  unfolding rounds
  after_tool-Keeps k name args i (raised m) c h =
      (h.0, omega (arith, h.1, rounds-snoc c.events (tool_result name false (codes m))), h.2)
  after_tool-Keeps k name args i (returned r) c h = (
    update-IsWithin sv.loads n (add_tool_result c.memory name r (some i)) (some args) (text r)
        (add_tool_result-IsWithin n c.memory name r (some i) h.0),
    omega (arith, h.1, rounds-snoc c.events (tool_result name true r)),
    h.2,
  )

  call_with-Keeps :
      (k : ℕ) (name i : String) (args : Option (Dict (Value F))) (c : Conversation F W)
      → Keeps k c
      → Keeps k (call_with sv name i args c).1
  unfolding rounds
  call_with-Keeps k name i none c h = h
  call_with-Keeps k name i (some args) c h =
      after_tool-Keeps k name args i (sv.execute name args c.world).0
        (record (emit (tool_call name args) c) { world = (sv.execute name args c.world).1 })
        (
          h.0,
          omega (arith, h.1, rounds-snoc c.events (tool_call name args)),
          omega (arith, h.2, counts.executes name args c.world),
        )

  execute_call-Keeps :
      (k : ℕ) (call : Call F) (c : Conversation F W)
      → Keeps k c
      → Keeps k (execute_call sv call c).1
  unfolding execute_call
  execute_call-Keeps k call c h =
      let named : Keeps k (record c { world = (sv.fresh_id c.world).1 }) =
        (h.0, h.1, omega (arith, h.2, counts.names c.world)) in
      elim (Option-cases call.name) [
        | inl e ↦ rw e named
        | inr (name, e) ↦
            rw e (call_with-Keeps k name _ _ (record c { world = (sv.fresh_id c.world).1 }) named)
      ]

  next_call-Keeps :
      (k : ℕ) (calls : List (Call F)) (job : Option (Dict (Value F))) (r : Ran F)
      (c : Conversation F W)
      → Keeps k c
      → ((found : Option (Dict (Value F))) → Keeps k (execute_calls sv calls found c).1)
      → Keeps k
          (elim r as (λ x. Ran F × Conversation F W) [
            | broke ↦ (broke, c)
            | ran found ↦ execute_calls sv calls (or_job sv found job) c
          ]).1
  next_call-Keeps k calls job broke c h rest = h
  next_call-Keeps k calls job (ran found) c h rest = rest (or_job sv found job)

  execute_calls-Keeps :
      (k : ℕ) (calls : List (Call F)) (job : Option (Dict (Value F))) (c : Conversation F W)
      → Keeps k c
      → Keeps k (execute_calls sv calls job c).1
  unfolding execute_calls
  execute_calls-Keeps k [] job c h = h
  execute_calls-Keeps k (call ∷ calls) job c h =
      let one = execute_call sv call c in
      let g = execute_call-Keeps k call c h in
      next_call-Keeps k calls job one.0 one.1 g (λ found. execute_calls-Keeps k calls found one.1 g)

  -- A verdict that replies says something, and the conversation is as it should be.
  abbrev Ends : ℕ → Verdict × Conversation F W → Type 0
  Ends k (answered t, c) = IsReply (some t) × Keeps k c
  Ends k (failed, c) = Keeps k c
  Ends k (stopped, c) = Keeps k c
  Ends k (onward, c) = Keeps k c

  Ends-if :
      (k : ℕ) (b : Bool) (c : Conversation F W)
      → Keeps k c
      → Ends k (if b then stopped else onward, c)
  Ends-if k true c h = h
  Ends-if k false c h = h

  after_calls-Ends :
      (k : ℕ) (choice : Choice F) (r : Ran F) (c : Conversation F W)
      → Keeps k c
      → Ends k (after_calls sv choice (r, c))
  unfolding format_async_submission_reply rounds
  after_calls-Ends k choice broke c h = h
  after_calls-Ends k choice (ran (some job)) c h =
      (tt, (h.0, omega (arith, h.1, rounds-snoc c.events (async_submission job)), h.2))
  after_calls-Ends k choice (ran none) c h = Ends-if k (stops sv choice.finish_reason) c h

  after_message-Ends :
      (k : ℕ) (choice : Choice F) (calls : List (Call F)) (c : Conversation F W)
      → Keeps k c
      → Ends k (after_message sv choice calls c)
  after_message-Ends k choice [] c h = (or_text-IsReply (text_of sv choice) _ _, h)
  after_message-Ends k choice (call ∷ calls) c h =
      let done = execute_calls sv (call ∷ calls) none c in
      after_calls-Ends k choice done.0 done.1 (execute_calls-Keeps k (call ∷ calls) none c h)

  remember-IsWithin :
      (content : Text) (calls : List (Call F)) (mem : Memory F)
      → IsWithin n mem
      → IsWithin n (remember sv content calls mem)
  remember-IsWithin [] [] mem h = h
  remember-IsWithin (t ∷ ts) [] mem h = add_assistant-IsWithin n mem (t ∷ ts) none h
  remember-IsWithin content (c ∷ cs) mem h =
      add_assistant-IsWithin n mem content (some (map (λ (d : Call F). d.stored) (c ∷ cs))) h

  after_choices-Ends :
      (k : ℕ) (choices : List (Choice F)) (c : Conversation F W)
      → Keeps k c
      → Ends k (after_choices sv choices c)
  after_choices-Ends k [] c h = (or_text-IsReply (last_text [] c.memory.history) _ _, h)
  after_choices-Ends k (choice ∷ others) c h =
      after_message-Ends k choice choice.calls
        (record c { memory = remember sv (text_of sv choice) choice.calls c.memory })
        (remember-IsWithin (text_of sv choice) choice.calls c.memory h.0, h.1, h.2)

  traced-Keeps :
      (k : ℕ) (b : Bool) (c : Conversation F W)
      → Keeps k c
      → Keeps k (if b then emit trace c else c)
  unfolding rounds
  traced-Keeps k true c h = (h.0, omega (arith, h.1, rounds-snoc c.events trace), h.2)
  traced-Keeps k false c h = h

  after_llm-Ends :
      (k : ℕ) (o : Outcome (Response F)) (c : Conversation F W)
      → Keeps k c
      → Ends k (after_llm sv o c)
  after_llm-Ends k (raised m) c h = h
  after_llm-Ends k (returned r) c h =
      after_choices-Ends k r.choices (if r.traced then emit trace c else c)
        (traced-Keeps k r.traced c h)

  round-Ends : (k i : ℕ) (c : Conversation F W) → Keeps k c → Ends (suc k) (round sv i c)
  unfolding round rounds
  round-Ends k i c h =
      let started = emit (iteration_start i) c in
      let asked = sv.call_llm started.memory started.world in
      after_llm-Ends (suc k) asked.0 (record started { world = asked.1 })
        (
          h.0,
          omega (arith, h.1, rounds-snoc c.events (iteration_start i)),
          omega (arith, h.2, counts.asks started.memory started.world),
        )

  -- What `left` rounds from `k` leave: a reply or an exception, within the limits.
  abbrev pub Finished : ℕ → ℕ → Option Text × Conversation F W → Type 0
  Finished left k r =
      IsReply r.0
      × IsWithin n r.1.memory
      × (k ≤ rounds r.1.events)
      × (rounds r.1.events ≤ k + left)
      × (count r.1.world + b ≡ rounds r.1.events + a)

  kept-Finished :
      (left k : ℕ) (reply : Option Text) (c : Conversation F W)
      → IsReply reply
      → Keeps k c
      → Finished left k (reply, c)
  kept-Finished left k reply c e h =
      (e, h.0, omega (arith, h.1), omega (arith, h.1), omega (arith, h.1, h.2))

  later-Finished :
      (left k : ℕ) (r : Option Text × Conversation F W)
      → Finished left (suc k) r
      → Finished (suc left) k r
  later-Finished left k r h = (h.0, h.1, omega (arith, h.2), omega (arith, h.3), h.4)

  last_word-Finished :
      (left k : ℕ) (c : Conversation F W) → Keeps k c → Finished left k (last_word sv c)
  last_word-Finished left k c h =
      kept-Finished left k (last_word sv c).0 c
        (or_text-IsReply (last_text [] c.memory.history) _ _) h

  next_round-Finished :
      (left i k : ℕ) (v : Verdict) (c : Conversation F W)
      → Ends (suc k) (v, c)
      → (Keeps (suc k) c → Finished left (suc k) (react sv left (suc i) c))
      → Finished (suc left) k (elim v as (λ x. Option Text × Conversation F W) [
        | answered t ↦ (some t, c)
        | failed ↦ (none, c)
        | stopped ↦ last_word sv c
        | onward ↦ react sv left (suc i) c
      ])
  next_round-Finished left i k (answered t) c e rest =
      later-Finished left k (some t, c) (kept-Finished left (suc k) (some t) c e.0 e.1)
  next_round-Finished left i k failed c e rest =
      later-Finished left k (none, c) (kept-Finished left (suc k) none c tt e)
  next_round-Finished left i k stopped c e rest =
      later-Finished left k (last_word sv c) (last_word-Finished left (suc k) c e)
  next_round-Finished left i k onward c e rest =
      later-Finished left k (react sv left (suc i) c) (rest e)

  react-Finished :
      (left i k : ℕ) (c : Conversation F W) → Keeps k c → Finished left k (react sv left i c)
  unfolding react
  react-Finished zero i k c h = last_word-Finished 0 k c h
  react-Finished (suc left) i k c h =
      let r = round sv (suc i) c in
      next_round-Finished left i k r.0 r.1 (round-Ends k (suc i) c h)
        (λ g. react-Finished left (suc i) (suc k) r.1 g)

-- What a turn from `c` leaves: a reply or an exception, the memory within its limit, and at most
-- `most` more calls of `_call_llm`, one for each round that was told of.
abbrev pub IsEnded :
    {F W : Type 0} → (W → ℕ) → ℕ → Conversation F W → Option Text × Conversation F W → Type 0
IsEnded count most c r =
    IsReply r.0
    × IsWithin c.memory.max_messages r.1.memory
    × (count c.world ≤ count r.1.world)
    × (count r.1.world ≤ count c.world + most)
    × (rounds r.1.events + count c.world ≡ rounds c.events + count r.1.world)

-- If a number read off the world counts the calls of _call_llm, and nothing else that a turn calls
-- changes it, then from any conversation a turn of the planner ends: with a reply that is not
-- empty unless an exception leaves it; with its memory within the memory's limit; after at most
-- max_iterations more calls of _call_llm; and with as many more events of a started round as
-- calls. How many requests one call sends is not said.
pub run-IsEnded :
    {F W : Type 0} (sv : Services F W) (count : W → ℕ) (max_iterations : ℕ) (message : String)
    (c : Conversation F W)
    → Counts sv count
    → IsEnded count max_iterations c (run sv max_iterations message c)
unfolding run refresh_similar_cases add_user
run-IsEnded sv count max_iterations message c counts =
    let most = c.memory.max_messages in
    let told = rounds c.events in
    let t = nonempty (strip message) in
    let fresh = refresh_for sv t c.memory (strip message) c.world in
    let same = count-refresh sv count counts t c.memory (strip message) c.world in
    let ended =
      react-Finished sv count counts most (count c.world) told max_iterations 0 told
        (record c { memory = add_user fresh.0 (codes message); world = fresh.1 })
        (
          add-IsWithin most fresh.0 (plain user (codes message))
              (max_messages-refresh sv t c.memory (strip message) c.world),
          refl,
          omega (arith, same),
        ) in
    (
      ended.0,
      ended.1,
      omega (arith, ended.2, ended.3, ended.4),
      omega (arith, ended.2, ended.3, ended.4),
      omega (arith, ended.4),
    )
