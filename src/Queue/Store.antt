-- ===== src/Queue/Store.antt =====
-- queue/store.py. The table is a list of rows in the order of insertion. A row holds what
-- `_row_to_job` makes of it, and a time stamp is the instant that its ISO text names. New ids, the
-- clock, the process id and `os.kill(pid, 0)` are arguments of the calls.
use eda_agent.Base.{
  ℕ, String, Bool, true, false, Option, none, some, List, [], ◌∷◌, ◌++◌, leb, if◌then◌else◌, str_eq,
  mem_str, keep_if, any_of, map, ◌&&◌,
}
use eda_agent.Json.{Value}
use eda_agent.Json.Dict.{Dict}

pub data JobStatus : Type 0 where
  pending running success failed cancelled : JobStatus

-- The arguments of a submission.
pub record Submission (F : Type 0) : Type 0 where
  pub backend : String
  pub stage : String
  pub design_name : String
  pub design_config : String
  pub pdk : String
  pub params : Dict (Value F)
  pub stage_start : Option String
  pub stage_end : Option String
  pub run_mode : String

pub record Job (F : Type 0) : Type 0 where
  pub job_id : String
  pub submission : Submission F
  pub open submission use *
  pub status : JobStatus
  pub run_db_id : Option ℕ
  pub log_path : Option String
  pub error_message : String
  pub worker_pid : Option ℕ
  pub created_at : ℕ
  pub started_at : Option ℕ
  pub finished_at : Option ℕ

abbrev pub status_eq : JobStatus → JobStatus → Bool
status_eq pending pending = true
status_eq running running = true
status_eq success success = true
status_eq failed failed = true
status_eq cancelled cancelled = true
status_eq _ _ = false

module _ {F : Type 0} where
  abbrev pub ids : List (Job F) → List String
  ids = map (λ j. j.job_id)

  abbrev pub is_pending : Job F → Bool
  is_pending j = status_eq j.status pending

  -- UPDATE jobs SET ... WHERE job_id = ?
  unfoldable pub update_job : String → (Job F → Job F) → List (Job F) → List (Job F)
  update_job i f [] = []
  update_job i f (j ∷ js) = (if str_eq j.job_id i then f j else j) ∷ update_job i f js

  abbrev pub new_job : String → ℕ → Submission F → Job F
  new_job i now s = record {
    job_id = i;
    submission = s;
    status = pending;
    run_db_id = none;
    log_path = none;
    error_message = "";
    worker_pid = none;
    created_at = now;
    started_at = none;
    finished_at = none;
  }

  -- `none` is the IntegrityError of an id that is taken.
  unfoldable pub create_job :
      String → ℕ → Submission F → List (Job F) → Option (Job F × List (Job F))
  create_job i now s jobs =
      if mem_str i (ids jobs) then none else some (new_job i now s, jobs ++ new_job i now s ∷ [])

  unfoldable pub enqueue : String → ℕ → Submission F → List (Job F) → Option (String × List (Job F))
  unfolding create_job
  enqueue i now s jobs = elim (create_job i now s jobs) [
    | none ↦ none
    | some (j, jobs') ↦ some (j.job_id, jobs')
  ]

  unfoldable pub get_job : String → List (Job F) → Option (Job F)
  get_job i [] = none
  get_job i (j ∷ js) = if str_eq j.job_id i then some j else get_job i js

  abbrev pub fail_at : ℕ → Job F → Job F
  fail_at now j = record j { status = failed; finished_at = some now }

  -- SELECT job_id, worker_pid FROM jobs WHERE status = 'running'
  abbrev pub running_rows : List (Job F) → List (Job F)
  running_rows = keep_if (λ j. status_eq j.status running)

  -- One row of the scan: a worker that `os.kill(pid, 0)` cannot reach has died. `reachable` is false
  -- for every OSError.
  abbrev pub fix_row : (ℕ → Bool) → ℕ → Job F → List (Job F) → List (Job F)
  fix_row reachable now row jobs = elim row.worker_pid [
    | none ↦ jobs
    | some pid ↦ if reachable pid then jobs else update_job row.job_id (fail_at now) jobs
  ]

  unfoldable pub fix_rows : (ℕ → Bool) → ℕ → List (Job F) → List (Job F) → List (Job F)
  fix_rows reachable now [] jobs = jobs
  fix_rows reachable now (r ∷ rs) jobs = fix_rows reachable now rs (fix_row reachable now r jobs)

  -- ORDER BY created_at DESC
  unfoldable pub insert_newest : Job F → List (Job F) → List (Job F)
  insert_newest j [] = j ∷ []
  insert_newest j (k ∷ ks) =
      if leb k.created_at j.created_at then j ∷ k ∷ ks else k ∷ insert_newest j ks

  unfoldable pub newest_first : List (Job F) → List (Job F)
  newest_first [] = []
  newest_first (j ∷ js) = insert_newest j (newest_first js)

  abbrev pub has_status : Option JobStatus → Job F → Bool
  has_status none j = true
  has_status (some s) j = status_eq j.status s

  -- `list_jobs`, which is `_fix_stale_jobs`: the jobs listed, and the table after the repair.
  unfoldable pub list_jobs :
      (ℕ → Bool) → ℕ → Option JobStatus → List (Job F) → List (Job F) × List (Job F)
  list_jobs reachable now wanted jobs =
      let fixed = fix_rows reachable now (keep_if (λ j. status_eq j.status running) jobs) jobs in
      (newest_first (keep_if (has_status wanted) fixed), fixed)

  -- SELECT ... WHERE status = 'pending' ORDER BY created_at ASC LIMIT 1
  abbrev pub older : Job F → Option (Job F) → Job F
  older j none = j
  older j (some k) = if leb j.created_at k.created_at then j else k

  unfoldable pub oldest_pending : List (Job F) → Option (Job F)
  oldest_pending [] = none
  oldest_pending (j ∷ js) =
      let rest = oldest_pending js in if is_pending j then some (older j rest) else rest

  abbrev pub start_at : ℕ → ℕ → Job F → Job F
  start_at now pid j = record j { status = running; worker_pid = some pid; started_at = some now }

  unfoldable pub claim_pending_job : ℕ → ℕ → List (Job F) → Option (Job F) × List (Job F)
  claim_pending_job now pid jobs = elim (oldest_pending jobs) [
    | none ↦ (none, jobs)
    | some row ↦
        let jobs' = update_job row.job_id (start_at now pid) jobs in
        (get_job row.job_id jobs', jobs')
  ]

  abbrev pub finish : ℕ → JobStatus → Option ℕ → Option String → String → Job F → Job F
  finish now status run_db_id log_path error j = record j {
    status = status;
    run_db_id = run_db_id;
    log_path = log_path;
    error_message = error;
    finished_at = some now;
  }

  unfoldable pub mark_done :
      ℕ → String → JobStatus → Option ℕ → Option String → String → List (Job F) → List (Job F)
  mark_done now i status run_db_id log_path error jobs =
      update_job i (finish now status run_db_id log_path error) jobs

  -- UPDATE jobs SET status='cancelled' WHERE job_id=? AND status='pending'
  unfoldable pub cancel_rows : String → List (Job F) → List (Job F)
  cancel_rows i [] = []
  cancel_rows i (j ∷ js) =
      (if str_eq j.job_id i && is_pending j then record j { status = cancelled } else j)
      ∷ cancel_rows i js

  unfoldable pub cancel_job : String → List (Job F) → Bool × List (Job F)
  cancel_job i jobs = (any_of (λ j. str_eq j.job_id i && is_pending j) jobs, cancel_rows i jobs)
