-- ===== src/Memory/Kept.antt =====
-- The scratchpad's methods leave the messages and their limit alone.
use eda_agent.Base.{String, ◌≡◌, refl, ◌∙◌, Option, none, some, List, [], ◌∷◌, Text, arith}
use eda_agent.Json.{Value}
use eda_agent.Json.Dict.{Dict, lookup}
use eda_agent.Memory.History.{Memory}
use eda_agent.Memory.Scratchpad.{
  set, put_fact, put_facts, put_source, usable, context_keys, ToolResult, parsed,
  update_context_from_tool,
}

module _ {F : Type 0} where
  abbrev pub SameTurns : Memory F → Memory F → Type 0
  SameTurns old new = (new.max_messages ≡ old.max_messages) × (new.history ≡ old.history)

  SameTurns-trans : (a b c : Memory F) → SameTurns a b → SameTurns b c → SameTurns a c
  SameTurns-trans a b c h k = (k.0 ∙ h.0, k.1 ∙ h.1)

  pub set-SameTurns : (mem : Memory F) (key : String) (v : Value F) → SameTurns mem (set mem key v)
  unfolding set
  set-SameTurns mem key v = ground arith

  put_fact-SameTurns :
      (mem : Memory F) (key : String) (v : Option (Value F)) → SameTurns mem (put_fact mem key v)
  unfolding set
  put_fact-SameTurns mem key none = (refl, refl)
  put_fact-SameTurns mem key (some v) = ground arith

  put_facts-SameTurns :
      (mem : Memory F) (source : Dict (Value F)) (keys : List String)
      → SameTurns mem (put_facts mem source keys)
  unfolding put_facts
  put_facts-SameTurns mem source [] = (refl, refl)
  put_facts-SameTurns mem source (k ∷ ks) =
      let next = put_fact mem k (usable (lookup k source)) in
      SameTurns-trans mem next (put_facts next source ks)
        (put_fact-SameTurns mem k (usable (lookup k source))) (put_facts-SameTurns next source ks)

  put_source-SameTurns :
      (mem : Memory F) (source : Option (Dict (Value F))) → SameTurns mem (put_source mem source)
  put_source-SameTurns mem none = (refl, refl)
  put_source-SameTurns mem (some d) = put_facts-SameTurns mem d context_keys

  pub update_context-SameTurns :
      (loads : Text → Option (Value F)) (mem : Memory F) (args : Option (Dict (Value F)))
      (result : ToolResult F)
      → SameTurns mem (update_context_from_tool loads mem args result)
  unfolding update_context_from_tool
  update_context-SameTurns loads mem args result =
      SameTurns-trans mem (put_source mem args)
        (put_source (put_source mem args) (parsed loads result)) (put_source-SameTurns mem args)
        (put_source-SameTurns (put_source mem args) (parsed loads result))
