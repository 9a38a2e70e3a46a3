-- ===== src/Sessions/Refinement.antt =====
-- The table of sessions as a map from ids to memories.
use eda_agent.Base.{
  ℕ, String, ◌≡◌, refl, sym, ap, subst, ◌∙◌, Bool, true, false, not, Option, none, some, List, [],
  ◌∷◌, keep_if, if◌then◌else◌, str_eq, eq_iff, Text, arith,
}
use eda_agent.Memory.History.{Memory}
use eda_agent.Memory.Wire.{to_dict}
use eda_agent.Memory.Budget.{shrink_to_byte_budget}
use eda_agent.Sessions.Store.{
  Row, Database, Reader, max_session_bytes, empty_memory, find_row, memory_of, load_session,
  rewritten, upsert, row_count, row_for, stored, save_session, clear_session,
}
use eda_agent.Sessions.Rows.{HasKey, session_id-rewritten}
use eda_agent.Sessions.Saving.{write_row-upsert, written-seen, reachable-load}

-- A call that changes the table.
pub data Change (F : Type 0) : Type 0 where
  save : String → String → ℕ → Memory F → Change F
  clear : String → Change F

-- The sessions as a map, in which an id that has no session has the empty memory.
abbrev pub SessionMap : Type 0 → Type 0
SessionMap F = String → Memory F

str_eq_flip : (a b : String) → str_eq a b ≡ false → str_eq b a ≡ false
str_eq_flip a b h = grind (arith, h, eq_iff a b, eq_iff b a)

module _ {F : Type 0} where
  abbrev pub without : String → List (Row F) → List (Row F)
  without i rows = keep_if (λ (r : Row F). not (str_eq r.session_id i)) rows

  row_count-other :
      (full : Bool) (new : Row F) (j : String) (rows : List (Row F))
      → str_eq new.session_id j ≡ false
      → row_count j (upsert full new rows) ≡ row_count j rows
  unfolding row_count upsert
  row_count-other true new j [] d = ground (arith, d)
  row_count-other false new j [] d = ground (arith, d)
  row_count-other true new j (r ∷ rs) d = ground (arith, d, row_count-other true new j rs d)
  row_count-other false new j (r ∷ rs) d = ground (arith, d, row_count-other false new j rs d)

  either-HasKey :
      (full : Bool) (new r : Row F) (rs : List (Row F)) (b : Bool)
      → str_eq r.session_id new.session_id ≡ b
      → HasKey (r ∷ rs)
      → HasKey (upsert full new rs)
      → HasKey (if b then rewritten full new r ∷ rs else r ∷ upsert full new rs)
  either-HasKey full new r rs true e h k =
      (subst (λ i. row_count i rs ≡ 0) (sym (session_id-rewritten full new r)) h.0, h.1)
  either-HasKey full new r rs false e h k = (
    row_count-other full new r.session_id rs (str_eq_flip r.session_id new.session_id e) ∙ h.0,
    k,
  )

  upsert-HasKey :
      (full : Bool) (new : Row F) (rows : List (Row F))
      → HasKey rows
      → HasKey (upsert full new rows)
  unfolding row_count upsert
  upsert-HasKey full new [] h = (refl, tt)
  upsert-HasKey full new (r ∷ rs) h =
      either-HasKey full new r rs (str_eq r.session_id new.session_id) refl h
        (upsert-HasKey full new rs h.1)

  row_count-without :
      (i j : String) (rows : List (Row F)) → row_count j rows ≡ 0 → row_count j (without i rows) ≡ 0
  unfolding row_count
  row_count-without i j [] h = refl
  row_count-without i j (r ∷ rs) h = ground (arith, h, row_count-without i j rs)

  without-HasKey : (i : String) (rows : List (Row F)) → HasKey rows → HasKey (without i rows)
  unfolding row_count
  without-HasKey i [] h = tt
  without-HasKey i (r ∷ rs) h =
      elim (str_eq r.session_id i)
        as (λ b. HasKey (if not b then r ∷ without i rs else without i rs)) [
          | true ↦ without-HasKey i rs h.1
          | false ↦ (row_count-without i r.session_id rs h.0, without-HasKey i rs h.1)
        ]

  find_row-without :
      (i j : String) (rows : List (Row F))
      → find_row j (without i rows) ≡ (if str_eq i j then none else find_row j rows)
  unfolding find_row
  find_row-without i j [] = ground arith
  find_row-without i j (r ∷ rs) =
      ground
        (arith, find_row-without i j rs, eq_iff r.session_id i, eq_iff r.session_id j, eq_iff i j)

  -- The table after a change, where the database can be reached.
  abbrev pub changed : (F → Text) → Change F → Database F → Database F
  changed repr (save i username now mem) db =
      stored i username now (to_dict false (shrink_to_byte_budget repr max_session_bytes mem)) db
  changed repr (clear i) db = record db { rows = without i db.rows }

  abbrev pub change : (F → Text) → Change F → Option (Database F) → Option (Database F)
  change repr (save i username now mem) db = (save_session repr i username now mem db).1
  change repr (clear i) db = clear_session i db

  abbrev pub changes : (F → Text) → List (Change F) → Option (Database F) → Option (Database F)
  changes repr [] db = db
  changes repr (c ∷ cs) db = changes repr cs (change repr c db)

  abbrev pub put : String → Memory F → SessionMap F → SessionMap F
  put i mem m asked = if str_eq i asked then mem else m asked

  -- What a change does to the map: a session has what is kept of its memory, or nothing.
  abbrev pub change_map : (F → Text) → Reader F → Bool → Change F → SessionMap F → SessionMap F
  change_map repr reader full (save i username now mem) m =
      put i
        (memory_of reader full (
          some (
            row_for full i username now
              (to_dict false (shrink_to_byte_budget repr max_session_bytes mem)))))
        m
  change_map repr reader full (clear i) m = put i empty_memory m

  abbrev pub changes_map :
      (F → Text) → Reader F → Bool → List (Change F) → SessionMap F → SessionMap F
  changes_map repr reader full [] m = m
  changes_map repr reader full (c ∷ cs) m =
      changes_map repr reader full cs (change_map repr reader full c m)

  change-reachable :
      (repr : F → Text) (c : Change F) (db : Database F)
      → db.reachable ≡ true
      → change repr c (some db) ≡ some (changed repr c db)
  unfolding save_session clear_session
  change-reachable repr (save i username now mem) db up =
      ap (λ b. some (if b then changed repr (save i username now mem) db else db)) up
  change-reachable repr (clear i) db up =
      ap (λ b. some (if b then changed repr (clear i) db else db)) up

  changed-HasKey :
      (repr : F → Text) (c : Change F) (db : Database F)
      → HasKey db.rows
      → HasKey (changed repr c db).rows
  changed-HasKey repr (save i username now mem) db h =
      subst HasKey (sym (write_row-upsert db.on_conflict db.has_scratchpad _ db.rows h))
        (upsert-HasKey db.has_scratchpad _ db.rows h)
  changed-HasKey repr (clear i) db h = without-HasKey i db.rows h

  put-written :
      (reader : Reader F) (full : Bool) (i asked : String) (mem : Memory F)
      (rows rows' : List (Row F)) (m : SessionMap F) (b : Bool)
      → str_eq i asked ≡ b
      → memory_of reader full (find_row i rows') ≡ mem
      → (str_eq i asked ≡ false → find_row asked rows' ≡ find_row asked rows)
      → memory_of reader full (find_row asked rows) ≡ m asked
      → memory_of reader full (find_row asked rows') ≡ (if b then mem else m asked)
  put-written reader full i asked mem rows rows' m true e own other same =
      subst (λ a. memory_of reader full (find_row a rows') ≡ mem) ((eq_iff i asked).0 e) own
  put-written reader full i asked mem rows rows' m false e own other same =
      ap (memory_of reader full) (other e) ∙ same

  put-cleared :
      (reader : Reader F) (full b : Bool) (o : Option (Row F)) (mem : Memory F)
      → memory_of reader full o ≡ mem
      → memory_of reader full (if b then none else o) ≡ (if b then empty_memory else mem)
  put-cleared reader full true o mem e = refl
  put-cleared reader full false o mem e = e

  -- One change on the table and on the map.
  viewed :
      (repr : F → Text) (reader : Reader F) (c : Change F) (db : Database F) (m : SessionMap F)
      → HasKey db.rows
      → ((asked : String) → memory_of reader db.has_scratchpad (find_row asked db.rows) ≡ m asked)
      → (asked : String)
      → memory_of reader db.has_scratchpad (find_row asked (changed repr c db).rows)
        ≡ change_map repr reader db.has_scratchpad c m asked
  viewed repr reader (save i username now mem) db m h same asked =
      let full = db.has_scratchpad in
      let new =
        row_for full i username now
          (to_dict false (shrink_to_byte_budget repr max_session_bytes mem)) in
      let (own, others) = written-seen reader db.on_conflict full new db.rows h in
      put-written reader full i asked _ db.rows _ m (str_eq i asked) refl own (others asked)
        (same asked)
  viewed repr reader (clear i) db m h same asked =
      ap (memory_of reader db.has_scratchpad) (find_row-without i asked db.rows)
      ∙ put-cleared reader db.has_scratchpad (str_eq i asked) (find_row asked db.rows) (m asked)
          (same asked)

  changes_viewed :
      (repr : F → Text) (reader : Reader F) (cs : List (Change F)) (db : Database F)
      (m : SessionMap F)
      → db.reachable ≡ true
      → HasKey db.rows
      → ((asked : String) → memory_of reader db.has_scratchpad (find_row asked db.rows) ≡ m asked)
      → (after : Database F) × (changes repr cs (some db) ≡ some after)
        × HasKey after.rows
        × ((asked : String)
            → load_session reader asked (some after)
              ≡ changes_map repr reader db.has_scratchpad cs m asked)
  changes_viewed repr reader [] db m up h same =
      (db, refl, h, λ asked. reachable-load reader asked db up ∙ same asked)
  changes_viewed repr reader (save i username now mem ∷ cs) db m up h same =
      let c : Change F = save i username now mem in
      let (after, e, k, v) =
        changes_viewed repr reader cs (changed repr c db)
          (change_map repr reader db.has_scratchpad c m) up (changed-HasKey repr c db h)
          (viewed repr reader c db m h same) in
      (after, ap (changes repr cs) (change-reachable repr c db up) ∙ e, k, v)
  changes_viewed repr reader (clear i ∷ cs) db m up h same =
      let c : Change F = clear i in
      let (after, e, k, v) =
        changes_viewed repr reader cs (changed repr c db)
          (change_map repr reader db.has_scratchpad c m) up (changed-HasKey repr c db h)
          (viewed repr reader c db m h same) in
      (after, ap (changes repr cs) (change-reachable repr c db up) ∙ e, k, v)

  -- On a database that can be reached and has no session twice, every sequence of saves and clears
  -- refines the same sequence on a map from ids to memories, where a save puts what the table
  -- keeps of the memory and a clear puts the empty memory: no session is there twice afterwards,
  -- and each load gives what the map holds.
  pub changes-refine_map :
      (repr : F → Text) (reader : Reader F) (cs : List (Change F)) (db : Database F)
      → db.reachable ≡ true
      → HasKey db.rows
      → (after : Database F) × (changes repr cs (some db) ≡ some after)
        × HasKey after.rows
        × ((asked : String)
            → load_session reader asked (some after)
              ≡ changes_map repr reader db.has_scratchpad cs
                  (λ i. load_session reader i (some db))
                  asked)
  changes-refine_map repr reader cs db up h =
      changes_viewed repr reader cs db (λ i. load_session reader i (some db)) up h
        (λ asked. sym (reachable-load reader asked db up))
