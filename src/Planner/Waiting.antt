-- ===== src/Planner/Waiting.antt =====
-- What waits in a memory without a limit, and what a tool result or a turn does to it.
use eda_agent.Base.{
  nonempty, String, ◌≡◌, refl, ap, ◌∙◌, map, true, false, Option, some, List, [], ◌∷◌, ◌++◌, str_eq,
  eq_iff, str_eq_refl, mem_str, Text, is_some, All, arith,
}
use eda_agent.Json.{Value}
use eda_agent.Json.Dict.{Dict}
use eda_agent.Memory.History.{Memory, Message, tool_message, add, add_tool_result, evict}
use eda_agent.Memory.Wire.{discard, declared}
use eda_agent.Memory.Pairing.{IsPaired, after_role, pending_from, snoc_pending}
use eda_agent.Memory.Scratchpad.{ToolResult, update_context_from_tool}
use eda_agent.Memory.Kept.{update_context-SameTurns}
use eda_agent.Planner.Model.{Call}

module _ {F : Type 0} where
  -- The calls have these ids, each a text that is not empty and that no other call has.
  abbrev pub IdsAre : List (Call F) → List String → Type 0
  IdsAre [] [] = Unit
  IdsAre [] (i ∷ is) = ⊥
  IdsAre (c ∷ cs) [] = ⊥
  IdsAre (c ∷ cs) (i ∷ is) =
      (c.stored.id ≡ some i) × (nonempty i ≡ true) × (mem_str i is ≡ false) × IdsAre cs is

  pub declared-IdsAre :
      (calls : List (Call F)) (ids : List String)
      → IdsAre calls ids
      → declared (map (λ (d : Call F). d.stored) calls) ≡ ids
  unfolding declared
  declared-IdsAre [] [] h = refl
  declared-IdsAre [] (i ∷ is) h = elim h [ ]
  declared-IdsAre (c ∷ cs) [] h = elim h [ ]
  declared-IdsAre (c ∷ cs) (i ∷ is) h = rw (h.0, h.1) (ap (λ l. i ∷ l) (declared-IdsAre cs is h.3))

  -- A memory without a limit that has the history `ms`.
  abbrev pub Holds : List (Message F) → Memory F → Type 0
  Holds ms mem = (mem.max_messages ≡ 0) × (mem.history ≡ ms)

  pub add-Holds :
      (ms : List (Message F)) (mem : Memory F) (m : Message F)
      → Holds ms mem
      → Holds (ms ++ m ∷ []) (add mem m)
  unfolding add evict
  add-Holds ms mem m h = ground arith

  -- The ids that wait at the end of the history.
  abbrev pub Waits : List String → Memory F → Type 0
  Waits waiting mem = (mem.max_messages ≡ 0) × (pending_from [] mem.history ≡ some waiting)

  abbrev pub Paired : Memory F → Type 0
  Paired mem = (mem.max_messages ≡ 0) × IsPaired mem.history

  pub Paired-Waits : (waiting : List String) (mem : Memory F) → Waits waiting mem → Paired mem
  Paired-Waits waiting mem h = (h.0, ap is_some h.1)

  pub add-Waits :
      (mem : Memory F) (m : Message F) (q r : List String)
      → Waits q mem
      → after_role m.role q m ≡ some r
      → Waits r (add mem m)
  add-Waits mem m q r h k =
      let kept = add-Holds mem.history mem m (h.0, refl) in
      (kept.0, ap (pending_from []) kept.1 ∙ snoc_pending mem.history m q r h.1 k)

  pub update-Waits :
      (loads : Text → Option (Value F)) (waiting : List String) (mem : Memory F)
      (args : Option (Dict (Value F))) (result : ToolResult F)
      → Waits waiting mem
      → Waits waiting (update_context_from_tool loads mem args result)
  update-Waits loads waiting mem args result h =
      let kept = update_context-SameTurns loads mem args result in
      (kept.0 ∙ h.0, ap (pending_from []) kept.1 ∙ h.1)

  pub add_tool_result-Waits :
      (mem : Memory F) (name : String) (result : Text) (i : String) (waiting : List String)
      → Waits waiting mem
      → mem_str i waiting ≡ true
      → nonempty i ≡ true
      → Waits (discard i waiting) (add_tool_result mem name result (some i))
  unfolding add_tool_result
  add_tool_result-Waits mem name result i waiting h m e =
      add-Waits mem (tool_message mem.tool_result_max_chars name result (some i)) waiting
        (discard i waiting) h (ground arith)

abbrev pub AllWait : List String → List String → Type 0
AllWait waiting ids = All (λ j. mem_str j waiting ≡ true) ids

pub mem_str-discard :
    (i j : String) (waiting : List String)
    → str_eq j i ≡ false
    → mem_str j waiting ≡ true
    → mem_str j (discard i waiting) ≡ true
mem_str-discard i j [] n h = h
mem_str-discard i j (x ∷ xs) n h =
    ground (arith, eq_iff x j, eq_iff x i, eq_iff j i, mem_str-discard i j xs n)

pub AllWait-discard :
    (i : String) (waiting ids : List String)
    → mem_str i ids ≡ false
    → AllWait waiting ids
    → AllWait (discard i waiting) ids
AllWait-discard i waiting [] n h = tt
AllWait-discard i waiting (j ∷ js) n h = (
  mem_str-discard i j waiting (ground arith) h.0,
  AllWait-discard i waiting js (ground arith) h.1,
)

pub AllWait-cons :
    (i : String) (waiting ids : List String) → AllWait waiting ids → AllWait (i ∷ waiting) ids
AllWait-cons i waiting [] h = tt
AllWait-cons i waiting (j ∷ js) h = (ground arith, AllWait-cons i waiting js h.1)

pub AllWait-refl : (ids : List String) → AllWait ids ids
AllWait-refl [] = tt
AllWait-refl (i ∷ is) = (ground (arith, str_eq_refl i), AllWait-cons i is is (AllWait-refl is))
