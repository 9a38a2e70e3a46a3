-- ===== src/Queue/Rows.antt =====
-- Rows with distinct ids: what an update of one row, and the search for the oldest, do to a table.
use native.Mathlib.Nat.{le_trans}
use eda_agent.Base.{
  String, ◌≤◌, ◌≡◌, refl, ap, subst, inl, inr, true, false, Option, none, some, List, [], ◌∷◌, ◌++◌,
  arith, leb, leb→le, str_eq, str_eq_refl, mem_str, Bool-cases, All, eq_iff,
}
use eda_agent.Queue.Store.{Job, ids, is_pending, update_job, get_job, older, oldest_pending}

-- No text occurs twice.
abbrev pub Distinct : List String → Type 0
Distinct [] = Unit
Distinct (i ∷ is) = (mem_str i is ≡ false) × Distinct is

module _ {F : Type 0} where
  pub ids-update_job :
      (i : String) (f : Job F → Job F) (js : List (Job F))
      → ((j : Job F) → (f j).job_id ≡ j.job_id)
      → ids (update_job i f js) ≡ ids js
  unfolding update_job
  ids-update_job i f [] keep = refl
  ids-update_job i f (j ∷ js) keep = ground (arith, keep j, ids-update_job i f js keep)

  update_job_absent :
      (i : String) (f : Job F → Job F) (js : List (Job F))
      → mem_str i (ids js) ≡ false
      → update_job i f js ≡ js
  unfolding update_job
  update_job_absent i f [] h = refl
  update_job_absent i f (j ∷ js) h = ground (arith, update_job_absent i f js)

  pub other_row :
      (i : String) (o : Job F) (pre post : List (Job F))
      → mem_str i (ids (pre ++ o ∷ post)) ≡ false
      → str_eq i o.job_id ≡ false
  other_row i o [] post h = ground (arith, eq_iff i o.job_id, eq_iff o.job_id i)
  other_row i o (j ∷ pre) post h = ground (arith, other_row i o pre post)

  -- In a table with distinct ids an update by id changes one row.
  pub update_job_at :
      (o : Job F) (f : Job F → Job F) (pre post : List (Job F))
      → Distinct (ids (pre ++ o ∷ post))
      → update_job o.job_id f (pre ++ o ∷ post) ≡ pre ++ f o ∷ post
  unfolding update_job
  update_job_at o f [] post d =
      ground (arith, str_eq_refl o.job_id, update_job_absent o.job_id f post d.0)
  update_job_at o f (j ∷ pre) post d =
      ground (arith, other_row j.job_id o pre post d.0, update_job_at o f pre post d.1)

  pub get_job_at :
      (o : Job F) (pre post : List (Job F))
      → Distinct (ids (pre ++ o ∷ post))
      → get_job o.job_id (pre ++ o ∷ post) ≡ some o
  unfolding get_job
  get_job_at o [] post d = ground (arith, str_eq_refl o.job_id)
  get_job_at o (j ∷ pre) post d =
      ground (arith, other_row j.job_id o pre post d.0, get_job_at o pre post d.1)

  -- The row is pending, and no pending row of the table is older.
  abbrev pub IsOldest : Job F → List (Job F) → Type 0
  IsOldest o js =
      (is_pending o ≡ true) × All (λ j. (is_pending j ≡ true) → o.created_at ≤ j.created_at) js

  abbrev pub Finds : List (Job F) → Option (Job F) → Type 0
  Finds js none = All (λ j. is_pending j ≡ false) js
  Finds js (some o) = IsOldest o js × ((pre post : List (Job F)) × (js ≡ pre ++ o ∷ post))

  All-mono :
      {P Q : Job F → Type 0} (js : List (Job F)) → ((j : Job F) → P j → Q j) → All P js → All Q js
  All-mono [] f h = tt
  All-mono (j ∷ js) f h = (f j h.0, All-mono js f h.1)

  older_left : (j o : Job F) → leb j.created_at o.created_at ≡ true → j ≡ older j (some o)
  older_left j o e = rw e

  older_right : (j o : Job F) → leb j.created_at o.created_at ≡ false → o ≡ older j (some o)
  older_right j o e = rw e

  oldest_step :
      (j : Job F) (js : List (Job F)) (r : Option (Job F))
      → Finds js r
      → is_pending j ≡ true
      → Finds (j ∷ js) (some (older j r))
  oldest_step j js none h p =
      ((p, ((λ _. omega arith), All-mono js (λ k n y. cc) h)), ([], js, refl))
  oldest_step j js (some o) h p = elim (Bool-cases (leb j.created_at o.created_at)) [
    | inl e ↦
        subst (λ x. Finds (j ∷ js) (some x)) (older_left j o e)
          (
            (
              p,
              (
                (λ _. omega arith),
                All-mono js (λ k le y. le_trans (leb→le j.created_at o.created_at e) (le y)) h.0.1,
              ),
            ),
            ([], js, refl),
          )
    | inr e ↦
        let (pre, post, q) = h.1 in
        subst (λ x. Finds (j ∷ js) (some x)) (older_right j o e)
          ((h.0.0, ((λ _. ground arith), h.0.1)), (j ∷ pre, post, ap (◌∷◌ j) q))
  ]

  skip_step :
      (j : Job F) (js : List (Job F)) (r : Option (Job F))
      → Finds js r
      → is_pending j ≡ false
      → Finds (j ∷ js) r
  skip_step j js none h n = (n, h)
  skip_step j js (some o) h n =
      let (pre, post, q) = h.1 in ((h.0.0, ((λ y. cc), h.0.1)), (j ∷ pre, post, ap (◌∷◌ j) q))

  -- The search finds an oldest pending row, or there is none.
  pub oldest_pending-Finds : (js : List (Job F)) → Finds js (oldest_pending js)
  unfolding oldest_pending
  oldest_pending-Finds [] = tt
  oldest_pending-Finds (j ∷ js) = elim (Bool-cases (is_pending j)) [
    | inl e ↦ rw e (oldest_step j js (oldest_pending js) (oldest_pending-Finds js) e)
    | inr e ↦ rw e (skip_step j js (oldest_pending js) (oldest_pending-Finds js) e)
  ]
