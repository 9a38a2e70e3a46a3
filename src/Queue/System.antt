-- ===== src/Queue/System.antt =====
-- One worker process and any clients on the same table. A step is one statement or transaction of
-- the store: a listing is a scan and a repair for each row that it met, with any other steps between
-- them. The worker holds at most one claimed job.
use eda_agent.Base.{
  ℕ, String, ◌≡◌, refl, subst, Bool, true, Option, none, some, List, [], ◌∷◌, ◌++◌, append-nil,
}
use eda_agent.Queue.Store.{
  Job, JobStatus, Submission, running_rows, create_job, fix_row, fix_rows, list_jobs,
  claim_pending_job, mark_done, cancel_job,
}
use eda_agent.Queue.Drain.{is_final}

pub record World (F : Type 0) : Type 0 where
  pub jobs : List (Job F)
  pub current : Option String
  -- the rows that listings have read and may still repair
  pub scanned : List (Job F)

-- `pid` is the worker's process id. A probe may say of any process that it cannot be reached.
pub data Step {F : Type 0} (pid : ℕ) : World F → World F → Type 0 where
  submit :
      (w : World F) (i : String) (now : ℕ) (s : Submission F) (j : Job F) (jobs' : List (Job F))
      → create_job i now s w.jobs ≡ some (j, jobs')
      → Step pid w (record w { jobs = jobs' })
  cancel : (w : World F) (i : String) → Step pid w (record w { jobs = (cancel_job i w.jobs).1 })
  scan : (w : World F) → Step pid w (record w { scanned = w.scanned ++ running_rows w.jobs })
  fix :
      (w : World F) (reachable : ℕ → Bool) (now : ℕ) (row : Job F) (before after : List (Job F))
      → w.scanned ≡ before ++ row ∷ after
      → Step pid w (record w { jobs = fix_row reachable now row w.jobs; scanned = before ++ after })
  claim :
      (w : World F) (now : ℕ) (j : Job F) (jobs' : List (Job F))
      → w.current ≡ none
      → claim_pending_job now pid w.jobs ≡ (some j, jobs')
      → Step pid w (record w { jobs = jobs'; current = some j.job_id })
  done :
      (w : World F) (now : ℕ) (i : String) (s : JobStatus) (run_db_id : Option ℕ)
      (log_path : Option String) (error : String)
      → w.current ≡ some i
      → is_final s ≡ true
      → Step pid w
          (record w { jobs = mark_done now i s run_db_id log_path error w.jobs; current = none })

pub data Reach {F : Type 0} (pid : ℕ) (w : World F) : World F → Type 0 where
  here : Reach pid w w
  next : {u v : World F} → Reach pid w u → Step pid u v → Reach pid w v

-- A listing that nothing interrupts is a scan and its repairs.
module _ {F : Type 0} (pid : ℕ) (w : World F) (reachable : ℕ → Bool) (now : ℕ) where
  fix_all :
      (rows : List (Job F)) (jobs : List (Job F))
      → Reach pid w (record w { jobs = jobs; scanned = w.scanned ++ rows })
      → Reach pid w
          (record w { jobs = fix_rows reachable now rows jobs; scanned = w.scanned ++ [] })
  unfolding fix_rows
  fix_all [] jobs r = r
  fix_all (row ∷ rows) jobs r =
      fix_all rows (fix_row reachable now row jobs)
        (next r (fix _ reachable now row w.scanned rows refl))

  pub Reach-list_jobs :
      (wanted : Option JobStatus)
      → Reach pid w (record w { jobs = (list_jobs reachable now wanted w.jobs).1 })
  unfolding list_jobs
  Reach-list_jobs wanted =
      subst
        (λ rows.
          Reach pid w
            (record w { jobs = (list_jobs reachable now wanted w.jobs).1; scanned = rows }))
        (append-nil w.scanned) (fix_all (running_rows w.jobs) w.jobs (next here (scan w)))
