-- ===== src/Sessions/Rows.antt =====
-- Writing a row: the two ways to write it, and what is found afterwards.
use eda_agent.Base.{
  String, ◌≡◌, refl, sym, ap, subst, Bool, true, false, Option, none, some, List, [], ◌∷◌, ◌++◌,
  if◌then◌else◌, str_eq, eq_iff, str_eq_refl, arith, Bool-cases, inl, inr,
}
use eda_agent.Memory.Wire.{Entry}
use eda_agent.Sessions.Store.{
  Column, Scratch, Row, find_row, rewritten, upsert, update_rows, row_count,
  update_then_insert_session,
}

module _ {F : Type 0} where
  -- No session has two rows: `session_id` is the primary key.
  abbrev pub HasKey : List (Row F) → Type 0
  HasKey [] = Unit
  HasKey (r ∷ rs) = (row_count r.session_id rs ≡ 0) × HasKey rs

  update_rows-absent :
      (full : Bool) (new : Row F) (rows : List (Row F))
      → row_count new.session_id rows ≡ 0
      → update_rows full new rows ≡ rows
  unfolding update_rows row_count
  update_rows-absent full new [] h = refl
  update_rows-absent full new (r ∷ rs) h = grind (arith, h, update_rows-absent full new rs)

  upsert-absent :
      (full : Bool) (new : Row F) (rows : List (Row F))
      → row_count new.session_id rows ≡ 0
      → upsert full new rows ≡ rows ++ new ∷ []
  unfolding upsert row_count
  upsert-absent full new [] h = refl
  upsert-absent full new (r ∷ rs) h = grind (arith, h, upsert-absent full new rs)

  -- In a table that has no session twice, an update followed by an insertion where no row was met
  -- leaves the same rows as the statement with ON CONFLICT.
  pub update_then_insert-upsert :
      (full : Bool) (new : Row F) (rows : List (Row F))
      → HasKey rows
      → update_then_insert_session full new rows ≡ upsert full new rows
  unfolding update_then_insert_session upsert update_rows row_count
  update_then_insert-upsert full new [] h = refl
  update_then_insert-upsert full new (r ∷ rs) h =
      elim (Bool-cases (str_eq r.session_id new.session_id)) [
        | inl e ↦
            let absent =
              subst (λ i. row_count i rs ≡ 0) ((eq_iff r.session_id new.session_id).0 e) h.0 in
            ground (arith, e, absent, update_rows-absent full new rs absent)
        | inr e ↦ ground (arith, e, update_then_insert-upsert full new rs h.1)
      ]

  -- What a reader sees of a row: its messages and its scratchpad.
  abbrev pub seen :
      Bool
      → Option (Row F)
      → Option (Option (Column (List (Entry F))) × Option (Column (Scratch F)))
  seen full none = none
  seen true (some r) = some (r.messages, r.scratchpad)
  seen false (some r) = some (r.messages, none)

  seen-rewritten :
      (full : Bool) (new r : Row F) → seen full (some (rewritten full new r)) ≡ seen full (some new)
  seen-rewritten true new r = refl
  seen-rewritten false new r = refl

  pub session_id-rewritten :
      (full : Bool) (new r : Row F) → (rewritten full new r).session_id ≡ r.session_id
  session_id-rewritten true new r = refl
  session_id-rewritten false new r = refl

  found_first :
      (full : Bool) (new r : Row F) (rs : List (Row F))
      → str_eq r.session_id new.session_id ≡ true
      → seen full (
          find_row new.session_id (
            if str_eq r.session_id new.session_id
            then rewritten full new r ∷ rs
            else r ∷ upsert full new rs))
        ≡ seen full (some new)
  unfolding find_row
  found_first true new r rs e = rw e (
      ap (λ b. seen true (if b then some (rewritten true new r) else find_row new.session_id rs)) e)
  found_first false new r rs e = rw e (
      ap (λ b. seen false (if b then some (rewritten false new r) else find_row new.session_id rs))
        e)

  pub find_row-upsert :
      (full : Bool) (new : Row F) (rows : List (Row F))
      → seen full (find_row new.session_id (upsert full new rows)) ≡ seen full (some new)
  unfolding find_row upsert
  find_row-upsert full new [] =
      ap (λ b. seen full (if b then some new else none)) (str_eq_refl new.session_id)
  find_row-upsert full new (r ∷ rs) = elim (Bool-cases (str_eq r.session_id new.session_id)) [
    | inl e ↦ found_first full new r rs e
    | inr e ↦ ground (arith, e, find_row-upsert full new rs)
  ]

  passed_over :
      (full : Bool) (other : String) (new r : Row F) (rs : List (Row F))
      → str_eq new.session_id other ≡ false
      → str_eq r.session_id new.session_id ≡ true
      → find_row other (
          if str_eq r.session_id new.session_id
          then rewritten full new r ∷ rs
          else r ∷ upsert full new rs)
        ≡ find_row other (r ∷ rs)
  unfolding find_row
  passed_over full other new r rs h e =
      let q =
        subst (λ i. str_eq i other ≡ false) (sym ((eq_iff r.session_id new.session_id).0 e)) h in
      rw (e, ap (λ i. str_eq i other) (session_id-rewritten full new r), q) refl

  pub find_row-other :
      (full : Bool) (other : String) (new : Row F) (rows : List (Row F))
      → str_eq new.session_id other ≡ false
      → find_row other (upsert full new rows) ≡ find_row other rows
  unfolding find_row upsert
  find_row-other full other new [] h = ground (arith, h)
  find_row-other full other new (r ∷ rs) h =
      elim (Bool-cases (str_eq r.session_id new.session_id)) [
        | inl e ↦ passed_over full other new r rs h e
        | inr e ↦ ground (arith, e, find_row-other full other new rs h)
      ]
