-- ===== src/Sessions/Saving.antt =====
-- Loading what was saved.
use eda_agent.Base.{
  ℕ, ◌≤◌, String, ◌≡◌, refl, sym, ap, subst, ◌∙◌, ◌⊎◌, inr, Bool, true, false, Option, none, some,
  List, [], ◌∷◌, ◌++◌, if◌then◌else◌, str_eq, length, All, Text, arith,
}
use eda_agent.Memory.History.{Memory, Message}
use eda_agent.Memory.Wire.{Entry, to_dict, from_dict}
use eda_agent.Memory.Pairing.{IsPaired}
use eda_agent.Memory.RoundTrip.{IsCanonical, from_dict-to_dict}
use eda_agent.Memory.Budget.{shrink_to_byte_budget, payload_bytes}
use eda_agent.Memory.Requests.{shrink_fits}
use eda_agent.Sessions.Store.{
  Column, Scratch, Row, Database, Reader, max_session_bytes, find_row, memory_of, load_session,
  upsert, write_row, row_for, read_column, empty_scratch, empty_memory, stored, save_session,
}
use eda_agent.Sessions.Rows.{
  HasKey, update_then_insert-upsert, seen, find_row-upsert, find_row-other,
}

module _ {F : Type 0} where
  All-suffix : (P : Message F → Type 0) (d s : List (Message F)) → All P (d ++ s) → All P s
  All-suffix P [] s h = h
  All-suffix P (m ∷ d) s h = All-suffix P d s h.1

  length-suffix : (d s : List (Message F)) → length s ≤ length (d ++ s)
  length-suffix [] s = omega arith
  length-suffix (m ∷ d) s = omega (arith, length-suffix d s)

  pub write_row-upsert :
      (conflict full : Bool) (new : Row F) (rows : List (Row F))
      → HasKey rows
      → write_row conflict full new rows ≡ upsert full new rows
  write_row-upsert true full new rows h = refl
  write_row-upsert false full new rows h = update_then_insert-upsert full new rows h

  -- The memory that a reader makes of what it sees.
  memory_seen :
      Reader F → Option (Option (Column (List (Entry F))) × Option (Column (Scratch F))) → Memory F
  memory_seen reader none = empty_memory
  memory_seen reader (some (messages, scratchpad)) =
      let scratch = read_column reader.loads_scratchpad empty_scratch scratchpad in
      from_dict 40 (record {
        messages = some (read_column reader.loads_messages [] messages);
        context = scratch.context;
        internal = scratch.internal;
      })

  memory_of-eq_seen :
      (reader : Reader F) (full : Bool) (o : Option (Row F))
      → memory_of reader full o ≡ memory_seen reader (seen full o)
  unfolding memory_seen
  memory_of-eq_seen reader true none = refl
  memory_of-eq_seen reader false none = refl
  memory_of-eq_seen reader true (some r) = refl
  memory_of-eq_seen reader false (some r) = refl

  memory_of-seen :
      (reader : Reader F) (full : Bool) (o : Option (Row F)) (r : Row F)
      → seen full o ≡ seen full (some r)
      → memory_of reader full o ≡ memory_of reader full (some r)
  memory_of-seen reader full o r h =
      memory_of-eq_seen reader full o
      ∙ ap (memory_seen reader) h
      ∙ sym (memory_of-eq_seen reader full (some r))

  -- The row of a memory that fits gives it back.
  restored-history :
      (reader : Reader F) (full : Bool) (i username : String) (now : ℕ) (mem : Memory F)
      → IsPaired mem.history
      → All IsCanonical mem.history
      → length mem.history ≤ 40
      → (memory_of reader full (some (row_for full i username now (to_dict false mem)))).history
        ≡ mem.history
  unfolding from_dict to_dict
  restored-history reader full i username now mem h c fits =
      ap (λ (m : Memory F). m.history)
        (from_dict-to_dict false (record mem { max_messages = 40 }) h c (inr fits))

  restored-facts :
      (reader : Reader F) (full : Bool) (i username : String) (now : ℕ) (mem : Memory F)
      → let back = memory_of reader full (some (row_for full i username now (to_dict false mem))) in
        (back.context ≡ (if full then mem.context else [])) × (back.internal ≡ [])
  unfolding from_dict to_dict
  restored-facts reader true i username now mem = (refl, refl)
  restored-facts reader false i username now mem = (refl, refl)

  -- A reader finds in the table what was written last, and every other session as it was.
  pub written-seen :
      (reader : Reader F) (conflict full : Bool) (new : Row F) (rows : List (Row F))
      → HasKey rows
      → (memory_of reader full (find_row new.session_id (write_row conflict full new rows))
          ≡ memory_of reader full (some new))
        × ((other : String)
            → str_eq new.session_id other ≡ false
            → find_row other (write_row conflict full new rows) ≡ find_row other rows)
  written-seen reader conflict full new rows h =
      let e = write_row-upsert conflict full new rows h in
      (
        ap (λ rs. memory_of reader full (find_row new.session_id rs)) e
            ∙ memory_of-seen reader full (find_row new.session_id (upsert full new rows)) new
                (find_row-upsert full new rows),
        λ other d. ap (find_row other) e ∙ find_row-other full other new rows d,
      )

  pub reachable-load :
      (reader : Reader F) (i : String) (db : Database F)
      → db.reachable ≡ true
      → load_session reader i (some db) ≡ memory_of reader db.has_scratchpad (find_row i db.rows)
  unfolding load_session
  reachable-load reader i db h =
      ap (λ b. if b then memory_of reader db.has_scratchpad (find_row i db.rows) else empty_memory)
        h

  saved :
      (repr : F → Text) (reader : Reader F) (i username : String) (now : ℕ) (mem : Memory F)
      (db : Database F) (asked : String)
      → db.reachable ≡ true
      → let kept = shrink_to_byte_budget repr max_session_bytes mem in
        load_session reader asked (save_session repr i username now mem (some db)).1
        ≡ memory_of reader db.has_scratchpad (
            find_row asked (
              write_row db.on_conflict db.has_scratchpad
                (row_for db.has_scratchpad i username now (to_dict false kept))
                db.rows))
  unfolding save_session
  saved repr reader i username now mem db asked up =
      let after =
        stored i username now (to_dict false (shrink_to_byte_budget repr max_session_bytes mem))
          db in
      ap (λ b. load_session reader asked (some (if b then after else db))) up
      ∙ reachable-load reader asked after up

  context-shrink :
      (repr : F → Text) (mem : Memory F)
      → (shrink_to_byte_budget repr max_session_bytes mem).context ≡ mem.context
  unfolding shrink_to_byte_budget
  context-shrink repr mem = refl

  -- What a later session has of a memory: an end of the history, and the facts that are kept.
  abbrev pub Carries : (F → Text) → Bool → Memory F → Memory F → Type 0
  Carries repr full mem back =
      ((d : List (Message F)) × (mem.history ≡ d ++ back.history))
      × IsPaired back.history
      × ((payload_bytes repr back.history ≤ max_session_bytes) ⊎ (back.history ≡ []))
      × (back.context ≡ (if full then mem.context else []))
      × (back.internal ≡ [])

  row-Carries :
      (repr : F → Text) (reader : Reader F) (full : Bool) (i username : String) (now : ℕ)
      (mem : Memory F)
      → IsPaired mem.history
      → All IsCanonical mem.history
      → length mem.history ≤ 40
      → let kept = shrink_to_byte_budget repr max_session_bytes mem in
        Carries repr full mem
          (memory_of reader full (some (row_for full i username now (to_dict false kept))))
  row-Carries repr reader full i username now mem h c fits =
      let kept = shrink_to_byte_budget repr max_session_bytes mem in
      let ((d, whole), paired, small) = shrink_fits repr mem max_session_bytes (omega arith) h in
      let same =
        restored-history reader full i username now kept paired
          (All-suffix IsCanonical d kept.history (subst (All IsCanonical) whole c))
          (omega (arith, fits, ap length whole, length-suffix d kept.history)) in
      let (facts, volatile) = restored-facts reader full i username now kept in
      (
        (d, whole ∙ ap (λ l. d ++ l) (sym same)),
        subst IsPaired (sym same) paired,
        subst (λ l. (payload_bytes repr l ≤ max_session_bytes) ⊎ (l ≡ [])) (sym same) small,
        facts ∙ ap (λ l. if full then l else []) (context-shrink repr mem),
        volatile,
      )

  -- In a database that can be reached and has no session twice, a paired and canonical memory of
  -- at most 40 messages that is saved is loaded again as an end of its history, paired, within the
  -- byte cap or empty, with its facts where the table has a column for them and without the
  -- volatile ones; every other session loads as before.
  pub load_session-save_session :
      (repr : F → Text) (reader : Reader F) (i username : String) (now : ℕ) (mem : Memory F)
      (db : Database F)
      → db.reachable ≡ true
      → HasKey db.rows
      → IsPaired mem.history
      → All IsCanonical mem.history
      → length mem.history ≤ 40
      → let after = (save_session repr i username now mem (some db)).1 in
        let back = load_session reader i after in
        Carries repr db.has_scratchpad mem back
        × ((other : String)
            → str_eq i other ≡ false
            → load_session reader other after ≡ load_session reader other (some db))
  load_session-save_session repr reader i username now mem db up key h c fits =
      let full = db.has_scratchpad in
      let new =
        row_for full i username now
          (to_dict false (shrink_to_byte_budget repr max_session_bytes mem)) in
      let (own, others) = written-seen reader db.on_conflict full new db.rows key in
      (
        subst (Carries repr full mem) (sym (saved repr reader i username now mem db i up ∙ own))
            (row-Carries repr reader full i username now mem h c fits),
        λ other d.
            saved repr reader i username now mem db other up
            ∙ ap (memory_of reader full) (others other d)
            ∙ sym (reachable-load reader other db up),
      )
