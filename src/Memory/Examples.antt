-- ===== src/Memory/Examples.antt =====
-- Concrete histories, payloads and scratchpads, with numbers in the place of floats.
use eda_agent.Base.{
  ℕ, ◌<◌, ◌≤◌, ◌≡◌, refl, none, some, List, [], ◌∷◌, ◌++◌, map, false, codes, length, All, inr, ◌⊎◌,
  arith,
}
use eda_agent.Json.Value.{str}
use eda_agent.Json.Fields.{end}
use eda_agent.Json.Dict.{lookup}
use eda_agent.Json.Dumps.{dumps, decimal, utf8_length}
use eda_agent.Json.Dumps.Ascii.{utf8_length-dumps}
use eda_agent.Memory.Groups.{drop_until}
use eda_agent.Memory.History.{
  Message, Memory, ToolCall, new_memory, plain, user, assistant, tool, tool_message, evict,
  add_tool_result,
}
use eda_agent.Memory.Wire.{WireRole, Entry, Payload, known, other, serialise, to_dict, from_dict}
use eda_agent.Memory.Pairing.{IsPaired, pending_from, from_dict-IsPaired, add_tool_result-IsPaired}
use eda_agent.Memory.Eviction.{evict_bounds, evict-longest, orphan_after_eviction}
use eda_agent.Memory.RoundTrip.{IsCanonical, from_dict-to_dict, restore_again}
use eda_agent.Memory.Budget.{
  estimate, get_messages, payload_bytes, shrink_to_byte_budget, prompt_entries,
}
use eda_agent.Memory.Requests.{
  get_messages_within, get_messages-longest, shrink_fits, shrink-longest,
}
use eda_agent.Memory.Scratchpad.{text, update_context_from_tool}
use eda_agent.Memory.Facts.{pdk, update_context_lem}

abbrev call : ToolCall ℕ
call = record { id = some "c1"; others = end }

abbrev asking : Message ℕ
asking = record (plain assistant (codes "look")) { tool_calls = some (call ∷ []) }

abbrev answer : Message ℕ
answer = record {
  role = tool;
  content = codes "slack -0.1";
  tool_name = some "query_timing";
  tool_call_id = some "c1";
  tool_calls = none;
}

abbrev turns : List (Message ℕ)
turns = plain user (codes "hi") ∷ asking ∷ answer ∷ []

abbrev talk : Memory ℕ
talk = record (new_memory 4 8192) { history = turns }

turns-IsPaired : IsPaired turns
unfolding pending_from eda_agent.Memory.Wire.declared_by
turns-IsPaired = refl

turns-IsCanonical : All IsCanonical turns
turns-IsCanonical = ((refl, refl, refl), ((refl, refl, refl), ((refl, refl), tt)))

-- A stored list whose first entry is a tool message that answers nothing.
abbrev stray : Entry ℕ
stray = record {
  role = known tool;
  content = some (codes "lost");
  name = some "query_timing";
  tool_call_id = some "c9";
  tool_calls = none;
}

abbrev stored : Payload ℕ
stored = record {
  messages = some (stray ∷ map serialise turns);
  context = some (("pdk", str (codes "asap7")) ∷ []);
  internal = none;
}

from_dict-IsPaired_example : IsPaired (from_dict 2 stored).history
from_dict-IsPaired_example = from_dict-IsPaired 2 stored

add_tool_result-IsPaired_example :
    IsPaired
      (add_tool_result
        (record talk { history = plain user (codes "hi") ∷ asking ∷ [] })
        "query_timing"
        (codes "ok")
        (some "c1")).history
unfolding pending_from eda_agent.Memory.Wire.declared_by
add_tool_result-IsPaired_example =
    add_tool_result-IsPaired (record talk { history = plain user (codes "hi") ∷ asking ∷ [] })
      "query_timing" (codes "ok") "c1" ("c1" ∷ []) refl refl refl

evict_bounds_example :
    (length (evict 2 turns) ≤ 2) × ((d : List (Message ℕ)) × (turns ≡ d ++ evict 2 turns))
evict_bounds_example = evict_bounds 2 turns (omega arith)

-- A limit of one message leaves nothing of a turn with its result.
evict-longest_example : (0 < 1) × (1 < 2)
unfolding evict drop_until
evict-longest_example =
    evict-longest 1 turns (plain user (codes "hi") ∷ []) (asking ∷ answer ∷ []) refl refl
      (omega arith)

orphan_after_eviction_example :
    let full = record (new_memory 2 8192) { history = asking ∷ answer ∷ [] } in
    let after =
      (add_tool_result
        (add_tool_result full "a" (codes "x") (some "c1"))
        "b"
        (codes "y")
        (some "c1")).history in
    (after ≡ tool_message 8192 "b" (codes "y") (some "c1") ∷ []) × (pending_from [] after ≡ none)
orphan_after_eviction_example =
    orphan_after_eviction (record (new_memory 2 8192) { history = asking ∷ answer ∷ [] }) asking
      (answer ∷ []) "a" "b" (codes "x") (codes "y") (some "c1") (some "c1") refl (refl, tt) refl

from_dict-to_dict_example :
    from_dict 4 (to_dict false talk) ≡ record talk { tool_result_max_chars = 8192; internal = [] }
from_dict-to_dict_example =
    from_dict-to_dict false talk turns-IsPaired turns-IsCanonical (inr (omega arith))

restore_again_example :
    let mem = from_dict 2 stored in
    let again = from_dict 2 (to_dict false mem) in
    (again.history ≡ mem.history) × (again.context ≡ mem.context)
restore_again_example = restore_again 2 stored

get_messages_within_example :
    let sent = get_messages decimal talk (codes "be brief") (some 12) in
    (d s : List (Message ℕ)) × (turns ≡ d ++ s)
    × (sent ≡ prompt_entries (codes "be brief") ++ map serialise s)
    × IsPaired s
    × ((estimate decimal sent ≤ 12) ⊎ (s ≡ []))
get_messages_within_example =
    get_messages_within decimal talk (codes "be brief") 11 turns-IsPaired turns-IsCanonical

get_messages-longest_example :
    12 < estimate decimal (prompt_entries (codes "be brief") ++ map serialise turns)
unfolding get_messages estimate dumps serialise drop_until
    eda_agent.Memory.Budget.trim_to_token_budget
get_messages-longest_example =
    get_messages-longest decimal talk (codes "be brief") 11 [] turns turns-IsCanonical refl refl
      (omega arith)

shrink_fits_example :
    let after = shrink_to_byte_budget decimal 60 talk in
    ((d : List (Message ℕ)) × (turns ≡ d ++ after.history))
    × IsPaired after.history
    × ((payload_bytes decimal after.history ≤ 60) ⊎ (after.history ≡ []))
shrink_fits_example = shrink_fits decimal talk 60 (omega arith) turns-IsPaired

shrink-longest_example : 60 < payload_bytes decimal turns
unfolding shrink_to_byte_budget payload_bytes dumps utf8_length serialise drop_until
shrink-longest_example = shrink-longest decimal talk 60 [] turns refl refl (omega arith)

update_context_lem_example :
    lookup "pdk"
      (update_context_from_tool
        (λ t. none)
        talk
        (some (("pdk", str (codes "asap7")) ∷ []))
        (text (codes "?"))).context
    ≡ some (str (codes "asap7"))
unfolding lookup
update_context_lem_example =
    update_context_lem (λ t. none) talk (some (("pdk", str (codes "asap7")) ∷ []))
      (text (codes "?")) pdk

utf8_length-dumps_example :
    utf8_length (dumps {F = ℕ} (λ x. codes "0.5") (str (codes "é")))
    ≡ length (dumps {F = ℕ} (λ x. codes "0.5") (str (codes "é")))
utf8_length-dumps_example =
    utf8_length-dumps (λ x. codes "0.5") (λ x. (omega arith, (omega arith, (omega arith, tt))))
      (str (codes "é"))
