-- ===== src/Queue/Listing.antt =====
-- What `list_jobs` repairs and returns.
use mathlib.Core.List.{Perm}
use mathlib.Core.List.Perm
use native.Mathlib.Nat.{le_trans}
use eda_agent.Base.{
  ℕ, ◌≤◌, ◌≡◌, refl, ap, subst, sym, ◌∙◌, inl, inr, Bool, true, false, not, ◌&&◌, Option, none,
  some, List, [], ◌∷◌, ◌++◌, arith, leb, leb→le, if◌then◌else◌, map, Bool-cases, All, keep_if,
  append_assoc,
}
use eda_agent.Queue.Store.{
  Job, JobStatus, running, running_rows, ids, status_eq, fail_at, fix_row, fix_rows, insert_newest,
  newest_first, has_status, list_jobs,
}
use eda_agent.Queue.Rows.{Distinct, update_job_at}
use eda_agent.Queue.Claims.{ids-replace}

abbrev lost : (ℕ → Bool) → Option ℕ → Bool
lost reachable none = false
lost reachable (some pid) = not (reachable pid)

module _ {F : Type 0} where
  -- A running job whose worker is recorded and cannot be reached has failed.
  abbrev pub repair : (ℕ → Bool) → ℕ → Job F → Job F
  repair reachable now j =
      if status_eq j.status running && lost reachable j.worker_pid then fail_at now j else j

  -- Newest first, jobs of the same instant in any order.
  abbrev pub IsNewestFirst : List (Job F) → Type 0
  IsNewestFirst [] = Unit
  IsNewestFirst (j ∷ js) = All (λ k. k.created_at ≤ j.created_at) js × IsNewestFirst js

  fix_row_at :
      (reachable : ℕ → Bool) (now : ℕ) (j : Job F) (pre post : List (Job F))
      → Distinct (ids (pre ++ j ∷ post))
      → status_eq j.status running ≡ true
      → fix_row reachable now j (pre ++ j ∷ post) ≡ pre ++ repair reachable now j ∷ post
  fix_row_at reachable now j pre post d r = ground (arith, update_job_at j (fail_at now) pre post d)

  job_id-repair :
      (reachable : ℕ → Bool) (now : ℕ) (j : Job F) → j.job_id ≡ (repair reachable now j).job_id
  job_id-repair reachable now j = ground arith

  repair_other :
      (reachable : ℕ → Bool) (now : ℕ) (j : Job F)
      → status_eq j.status running ≡ false
      → j ≡ repair reachable now j
  repair_other reachable now j e = ground arith

  picked :
      (j : Job F) (js : List (Job F))
      → status_eq j.status running ≡ true
      → running_rows (j ∷ js) ≡ j ∷ running_rows js
  picked j js e = rw e

  passed :
      (j : Job F) (js : List (Job F))
      → status_eq j.status running ≡ false
      → running_rows (j ∷ js) ≡ running_rows js
  passed j js e = rw e

  fix_rows_from :
      (reachable : ℕ → Bool) (now : ℕ) (pre js : List (Job F))
      → Distinct (ids (pre ++ js))
      → fix_rows reachable now (keep_if (λ j. status_eq j.status running) js) (pre ++ js)
        ≡ pre ++ map (repair reachable now) js
  unfolding fix_rows
  fix_rows_from reachable now pre [] d = refl
  fix_rows_from reachable now pre (j ∷ js) d =
      let r = repair reachable now j in
      let rows = keep_if (λ (k : Job F). status_eq k.status running) js in
      let moved : pre ++ r ∷ js ≡ (pre ++ r ∷ []) ++ js = sym (append_assoc pre (r ∷ []) js) in
      let d' : Distinct (ids ((pre ++ r ∷ []) ++ js)) =
        subst Distinct (ids-replace j r pre js (job_id-repair reachable now j) ∙ ap ids moved) d in
      let rest =
        ap (fix_rows reachable now rows) moved
        ∙ fix_rows_from reachable now (pre ++ r ∷ []) js d'
        ∙ append_assoc pre (r ∷ []) (map (repair reachable now) js) in
      elim (Bool-cases (status_eq j.status running)) [
        | inl e ↦
            ap (λ l. fix_rows reachable now l (pre ++ j ∷ js)) (picked j js e)
            ∙ ap (fix_rows reachable now rows) (fix_row_at reachable now j pre js d e)
            ∙ rest
        | inr e ↦
            ap (λ l. fix_rows reachable now l (pre ++ j ∷ js)) (passed j js e)
            ∙ ap (λ k. fix_rows reachable now rows (pre ++ k ∷ js)) (repair_other reachable now j e)
            ∙ rest
      ]

  insert_newest-perm : (j : Job F) (js : List (Job F)) → Perm (insert_newest j js) (j ∷ js)
  unfolding insert_newest
  insert_newest-perm j [] = Perm.refl (j ∷ [])
  insert_newest-perm j (k ∷ ks) = elim (Bool-cases (leb k.created_at j.created_at)) [
    | inl e ↦ rw e (Perm.refl (j ∷ k ∷ ks))
    | inr e ↦ rw e (Perm.trans (Perm.cons k (insert_newest-perm j ks)) (Perm.swap j k ks))
  ]

  newest_first-perm : (js : List (Job F)) → Perm (newest_first js) js
  unfolding newest_first
  newest_first-perm [] = Perm.nil
  newest_first-perm (j ∷ js) =
      Perm.trans (insert_newest-perm j (newest_first js)) (Perm.cons j (newest_first-perm js))

  insert_newest-All :
      (P : Job F → Type 0) (j : Job F) (js : List (Job F))
      → P j
      → All P js
      → All P (insert_newest j js)
  unfolding insert_newest
  insert_newest-All P j [] p h = (p, h)
  insert_newest-All P j (k ∷ ks) p h = elim (Bool-cases (leb k.created_at j.created_at)) [
    | inl e ↦ rw e (p, h)
    | inr e ↦ rw e (h.0, insert_newest-All P j ks p h.1)
  ]

  All-le :
      {m n : ℕ} (ks : List (Job F))
      → m ≤ n
      → All (λ k. k.created_at ≤ m) ks
      → All (λ k. k.created_at ≤ n) ks
  All-le [] h a = tt
  All-le (k ∷ ks) h a = (le_trans a.0 h, All-le ks h a.1)

  insert_newest-IsNewestFirst :
      (j : Job F) (js : List (Job F)) → IsNewestFirst js → IsNewestFirst (insert_newest j js)
  unfolding insert_newest
  insert_newest-IsNewestFirst j [] h = (tt, tt)
  insert_newest-IsNewestFirst j (k ∷ ks) h = elim (Bool-cases (leb k.created_at j.created_at)) [
    | inl e ↦ let k-le = leb→le k.created_at j.created_at e in rw e ((k-le, All-le ks k-le h.0), h)
    | inr e ↦ rw e (
      insert_newest-All (λ x. x.created_at ≤ k.created_at) j ks (ground arith) h.0,
      insert_newest-IsNewestFirst j ks h.1,
    )
  ]

  newest_first-IsNewestFirst : (js : List (Job F)) → IsNewestFirst (newest_first js)
  unfolding newest_first
  newest_first-IsNewestFirst [] = tt
  newest_first-IsNewestFirst (j ∷ js) =
      insert_newest-IsNewestFirst j (newest_first js) (newest_first-IsNewestFirst js)

  -- Listing a table with distinct ids fails each running job whose recorded worker cannot be
  -- reached, and returns the jobs of the repaired table that have the status asked for, each once,
  -- newest first.
  pub list_jobs_lem :
      (reachable : ℕ → Bool) (now : ℕ) (wanted : Option JobStatus) (jobs : List (Job F))
      → Distinct (ids jobs)
      → let (listed, after) = list_jobs reachable now wanted jobs in
        (after ≡ map (repair reachable now) jobs)
        × IsNewestFirst listed
        × Perm listed (keep_if (has_status wanted) (map (repair reachable now) jobs))
  unfolding list_jobs
  list_jobs_lem reachable now wanted jobs d =
      let fixed = fix_rows_from reachable now [] jobs d in
      (
        fixed,
        newest_first-IsNewestFirst _,
        Perm.trans (newest_first-perm _) (rw fixed (Perm.refl _)),
      )
