-- ===== src/Sessions/Examples.antt =====
-- A conversation that is saved in a table that already has another session.
use eda_agent.Base.{
  ℕ, String, ◌≡◌, refl, true, false, none, some, List, [], ◌∷◌, codes, str_eq, arith,
}
use eda_agent.Json.Value.{str}
use eda_agent.Json.Dumps.{decimal}
use eda_agent.Memory.History.{Memory, Message, new_memory, plain, user, assistant}
use eda_agent.Memory.Pairing.{IsPaired, pending_from}
use eda_agent.Sessions.Store.{
  Row, Database, Reader, load_session, save_session, upsert, update_then_insert_session, row_count,
}
use eda_agent.Sessions.Rows.{HasKey, update_then_insert-upsert}
use eda_agent.Sessions.Refinement.{Change, save, clear, changes, changes_map, changes-refine_map}
use eda_agent.Sessions.Saving.{Carries, load_session-save_session}

abbrev turns : List (Message ℕ)
turns = plain user (codes "hi") ∷ plain assistant (codes "hello") ∷ []

abbrev talk : Memory ℕ
talk = record (new_memory 40 8192) { history = turns; context = ("pdk", str (codes "sky130")) ∷ [] }

abbrev row : Row ℕ
row = record {
  session_id = "cli-ann-default";
  username = "ann";
  messages = none;
  scratchpad = none;
  updated_at = 3;
}

abbrev table : Database ℕ
table = record { rows = row ∷ []; has_scratchpad = true; on_conflict = false; reachable = true }

abbrev reader : Reader ℕ
reader = record { loads_messages = λ t. none; loads_scratchpad = λ t. none }

row-HasKey : HasKey (row ∷ [])
unfolding row_count
row-HasKey = (refl, tt)

turns-IsPaired : IsPaired turns
unfolding pending_from
turns-IsPaired = refl

update_then_insert-upsert_example :
    update_then_insert_session true row (row ∷ []) ≡ upsert true row (row ∷ [])
update_then_insert-upsert_example = update_then_insert-upsert true row (row ∷ []) row-HasKey

load_session-save_session_example :
    let after = (save_session decimal "cli-bob-default" "bob" 7 talk (some table)).1 in
    let back = load_session reader "cli-bob-default" after in
    Carries decimal true talk back
    × ((other : String)
        → str_eq "cli-bob-default" other ≡ false
        → load_session reader other after ≡ load_session reader other (some table))
load_session-save_session_example =
    load_session-save_session decimal reader "cli-bob-default" "bob" 7 talk table refl row-HasKey
      turns-IsPaired ((refl, refl, refl), ((refl, refl, refl), tt)) (omega arith)

-- Another session is saved, and the first one is cleared.
abbrev two_changes : List (Change ℕ)
two_changes = save "cli-bob-default" "bob" 7 talk ∷ clear "cli-ann-default" ∷ []

changes-refine_map_example :
    (after : Database ℕ) × (changes decimal two_changes (some table) ≡ some after)
    × HasKey after.rows
    × ((asked : String)
        → load_session reader asked (some after)
          ≡ changes_map decimal reader true two_changes
              (λ i. load_session reader i (some table))
              asked)
changes-refine_map_example = changes-refine_map decimal reader two_changes table refl row-HasKey
