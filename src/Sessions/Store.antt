-- ===== src/Sessions/Store.antt =====
-- agent/session_store.py: the table of sessions, and loading, saving, clearing and listing them. Each
-- call is one transaction; a database that cannot be reached raises in each statement. `json.loads`
-- is a parameter.
use eda_agent.Base.{
  ℕ, ◌+◌, String, Bool, true, false, not, Option, none, some, List, [], ◌∷◌, ◌++◌, map, keep_if,
  take, if◌then◌else◌, str_eq, Text, length, leb, ◌==◌, or_else,
}
use eda_agent.Json.{Value}
use eda_agent.Json.Dict.{Dict}
use eda_agent.Memory.History.{Memory, new_memory}
use eda_agent.Memory.Wire.{Entry, Payload, to_dict, from_dict}
use eda_agent.Memory.Budget.{shrink_to_byte_budget}

-- A JSON column: a value, or a text that was stored in its place.
pub data Column (A : Type 0) : Type 0 where
  json : A → Column A
  quoted : Text → Column A

pub record Scratch (F : Type 0) : Type 0 where
  pub context : Option (Dict (Value F))
  pub internal : Option (Dict (Value F))

-- A row of `agent_sessions`.
pub record Row (F : Type 0) : Type 0 where
  pub session_id : String
  pub username : String
  pub messages : Option (Column (List (Entry F)))
  pub scratchpad : Option (Column (Scratch F))
  pub updated_at : ℕ

-- The old schema has no scratchpad, and not every database knows ON CONFLICT.
pub record Database (F : Type 0) : Type 0 where
  pub rows : List (Row F)
  pub has_scratchpad : Bool
  pub on_conflict : Bool
  pub reachable : Bool

pub record SessionInfo : Type 0 where
  pub session_id : String
  pub username : String
  pub updated_at : ℕ
  pub message_count : ℕ

pub record Reader (F : Type 0) : Type 0 where
  pub loads_messages : Text → Option (List (Entry F))
  pub loads_scratchpad : Text → Option (Scratch F)

abbrev pub max_session_bytes : ℕ
max_session_bytes = 524288

abbrev pub read_column : {A : Type 0} → (Text → Option A) → A → Option (Column A) → A
read_column loads other none = other
read_column loads other (some (json a)) = a
read_column loads other (some (quoted t)) = or_else (loads t) other

module _ {F : Type 0} where
  unfoldable pub find_row : String → List (Row F) → Option (Row F)
  find_row i [] = none
  find_row i (r ∷ rs) = if str_eq r.session_id i then some r else find_row i rs

  abbrev pub empty_scratch : Scratch F
  empty_scratch = record { context = none; internal = none }

  abbrev pub empty_memory : Memory F
  empty_memory = new_memory 40 8192

  abbrev pub memory_of : Reader F → Bool → Option (Row F) → Memory F
  memory_of reader full none = empty_memory
  memory_of reader full (some r) =
      let scratch =
        if full
        then read_column reader.loads_scratchpad empty_scratch r.scratchpad
        else empty_scratch in
      from_dict 40 (record {
        messages = some (read_column reader.loads_messages [] r.messages);
        context = scratch.context;
        internal = scratch.internal;
      })

  unfoldable pub load_session : Reader F → String → Option (Database F) → Memory F
  unfolding find_row from_dict
  load_session reader i none = empty_memory
  load_session reader i (some db) =
      if db.reachable then memory_of reader db.has_scratchpad (find_row i db.rows) else empty_memory

  -- SET messages, scratchpad, updated_at; the old schema has no scratchpad to set.
  abbrev pub rewritten : Bool → Row F → Row F → Row F
  rewritten true new r = record r {
    messages = new.messages;
    scratchpad = new.scratchpad;
    updated_at = new.updated_at;
  }
  rewritten false new r = record r { messages = new.messages; updated_at = new.updated_at }

  -- INSERT ... ON CONFLICT (session_id) DO UPDATE
  unfoldable pub upsert : Bool → Row F → List (Row F) → List (Row F)
  upsert full new [] = new ∷ []
  upsert full new (r ∷ rs) =
      if str_eq r.session_id new.session_id
      then rewritten full new r ∷ rs
      else r ∷ upsert full new rs

  -- UPDATE ... WHERE session_id = :sid, and its rowcount
  unfoldable pub update_rows : Bool → Row F → List (Row F) → List (Row F)
  update_rows full new [] = []
  update_rows full new (r ∷ rs) =
      let rest = update_rows full new rs in
      if str_eq r.session_id new.session_id then rewritten full new r ∷ rest else r ∷ rest

  unfoldable pub row_count : String → List (Row F) → ℕ
  row_count i [] = 0
  row_count i (r ∷ rs) =
      let rest = row_count i rs in if str_eq r.session_id i then 1 + rest else rest

  unfoldable pub update_then_insert_session : Bool → Row F → List (Row F) → List (Row F)
  unfolding update_rows row_count
  update_then_insert_session full new rows =
      let updated = update_rows full new rows in
      if row_count new.session_id rows == 0 then updated ++ new ∷ [] else updated

  abbrev pub write_row : Bool → Bool → Row F → List (Row F) → List (Row F)
  write_row true full new rows = upsert full new rows
  write_row false full new rows = update_then_insert_session full new rows

  -- The row that is inserted where there is none.
  abbrev pub row_for : Bool → String → String → ℕ → Payload F → Row F
  row_for full i username now payload = record {
    session_id = i;
    username = username;
    messages = some (json (or_else payload.messages []));
    scratchpad =
        if full
        then some (json (record { context = payload.context; internal = payload.internal }))
        else none;
    updated_at = now;
  }

  abbrev pub stored : String → String → ℕ → Payload F → Database F → Database F
  stored i username now payload db = record db {
    rows =
        write_row db.on_conflict db.has_scratchpad
          (row_for db.has_scratchpad i username now payload) db.rows;
  }

  -- The memory is shrunk in place, whether or not the database can be reached.
  unfoldable pub save_session :
      (F → Text)
      → String
      → String
      → ℕ
      → Memory F
      → Option (Database F)
      → Memory F × Option (Database F)
  unfolding shrink_to_byte_budget to_dict upsert update_then_insert_session
  save_session repr i username now mem none = (mem, none)
  save_session repr i username now mem (some db) =
      let kept = shrink_to_byte_budget repr max_session_bytes mem in
      (kept, some (if db.reachable then stored i username now (to_dict false kept) db else db))

  unfoldable pub clear_session : String → Option (Database F) → Option (Database F)
  clear_session i none = none
  clear_session i (some db) = some (
      if db.reachable
      then record db { rows = keep_if (λ (r : Row F). not (str_eq r.session_id i)) db.rows }
      else db)

  unfoldable pub message_count_from_db_value :
      (Text → Option (List (Entry F))) → Option (Column (List (Entry F))) → ℕ
  message_count_from_db_value loads messages = length (read_column loads [] messages)

  -- ORDER BY updated_at DESC
  abbrev pub insert_latest : Row F → List (Row F) → List (Row F)
  insert_latest r [] = r ∷ []
  insert_latest r (s ∷ rs) =
      let rest = insert_latest r rs in
      if leb s.updated_at r.updated_at then r ∷ s ∷ rs else s ∷ rest

  unfoldable pub latest_first : List (Row F) → List (Row F)
  latest_first [] = []
  latest_first (r ∷ rs) = insert_latest r (latest_first rs)

  abbrev pub belongs_to : Option String → Row F → Bool
  belongs_to none r = true
  belongs_to (some username) r = str_eq r.username username

  abbrev pub info_of : Reader F → Row F → SessionInfo
  info_of reader r = record {
    session_id = r.session_id;
    username = r.username;
    updated_at = r.updated_at;
    message_count = message_count_from_db_value reader.loads_messages r.messages;
  }

  unfoldable pub list_sessions :
      Reader F → Option String → ℕ → Option (Database F) → List SessionInfo
  unfolding latest_first message_count_from_db_value
  list_sessions reader username limit none = []
  list_sessions reader username limit (some db) =
      if db.reachable
      then map (info_of reader) (take limit (latest_first (keep_if (belongs_to username) db.rows)))
      else []
