-- ===== src/Queue/Worker.antt =====
-- queue/worker.py. The functions of agent/tools.py that run a stage or a flow, the clocks and the
-- process table are parameters. The clocks are read once in a round; signals are left out here.
use eda_agent.Base.{
  ℕ, zero, suc, String, ◌+◌, Bool, true, false, Option, none, some, List, [], ◌∷◌, leb, ◌==◌,
  if◌then◌else◌, str_eq, nonempty, or_else, Outcome, returned, raised,
}
use eda_agent.Json.{Value}
use eda_agent.Json.Value.{bool}
use eda_agent.Json.Dict.{lookup}
use eda_agent.Queue.Store.{Job, JobStatus, success, failed, claim_pending_job, mark_done}

pub record StageResult : Type 0 where
  pub status : Option String
  pub run_id : Option ℕ
  pub log_path : Option String
  pub error : Option String

pub record FlowResult : Type 0 where
  pub overall_status : Option String
  pub results : List (Option ℕ × Option String)
  pub error : Option String

pub record Stages (F : Type 0) : Type 0 where
  pub run_stage : Job F → Outcome StageResult
  pub run_flow : Job F → String → Value F → Outcome FlowResult

abbrev pub final_status : Option String → JobStatus
final_status none = failed
final_status (some s) = if str_eq s "success" then success else failed

-- for r in results: if r.get("run_id"): run_db_id = r["run_id"]
abbrev pub last_run_id : Option ℕ → List (Option ℕ × Option String) → Option ℕ
last_run_id found [] = found
last_run_id found ((none, p) ∷ rs) = last_run_id found rs
last_run_id found ((some i, p) ∷ rs) = last_run_id (if i == 0 then found else some i) rs

abbrev pub last_log_path : Option String → List (Option ℕ × Option String) → Option String
last_log_path found [] = found
last_log_path found ((i, none) ∷ rs) = last_log_path found rs
last_log_path found ((i, some p) ∷ rs) = last_log_path (if nonempty p then some p else found) rs

-- job.stage_start or "all"
abbrev pub start_of : Option String → String
start_of none = "all"
start_of (some s) = if nonempty s then s else "all"

module _ {F : Type 0} where
  abbrev pub finish_flow : ℕ → String → Outcome FlowResult → List (Job F) → List (Job F)
  finish_flow now i (raised message) jobs = mark_done now i failed none none message jobs
  finish_flow now i (returned r) jobs =
      mark_done now i (final_status r.overall_status) (last_run_id none r.results)
        (last_log_path none r.results) (or_else r.error "") jobs

  abbrev pub finish_stage : ℕ → String → Outcome StageResult → List (Job F) → List (Job F)
  finish_stage now i (raised message) jobs = mark_done now i failed none none message jobs
  finish_stage now i (returned r) jobs =
      mark_done now i (final_status r.status) r.run_id r.log_path (or_else r.error "") jobs

  unfoldable pub execute_job : Stages F → ℕ → Job F → List (Job F) → List (Job F)
  execute_job stages now job jobs =
      if str_eq job.run_mode "flow"
      then finish_flow now job.job_id
          (stages.run_flow job (start_of job.stage_start)
            (or_else (lookup "_clean" job.params) (bool false)))
          jobs
      else finish_stage now job.job_id (stages.run_stage job) jobs

-- What a worker process is started with, and what it reads of its surroundings in round `n`.
pub record Settings (F : Type 0) : Type 0 where
  pub stages : Stages F
  pub pid : ℕ
  pub max_idle : Option ℕ
  pub wall : ℕ → ℕ
  pub monotonic : ℕ → ℕ

module _ {F : Type 0} (env : Settings F) where
  abbrev pub idle_too_long : ℕ → ℕ → Bool
  idle_too_long since now = elim env.max_idle [ none ↦ false | some m ↦ leb (since + m) now ]

  -- The loop of `run_worker` from round `n`; `none` means that it still runs when the rounds are up.
  unfoldable pub run_loop : ℕ → ℕ → Option ℕ → List (Job F) → Option (List (Job F))
  run_loop zero n idle_since jobs = none
  run_loop (suc fuel) n idle_since jobs =
      let claim = claim_pending_job (env.wall n) env.pid jobs in
      elim claim.0 [
        | some job ↦ run_loop fuel (suc n) none (execute_job env.stages (env.wall n) job claim.1)
        | none ↦ elim idle_since [
          | none ↦ run_loop fuel (suc n) (some (env.monotonic n)) claim.1
          | some since ↦ elim (idle_too_long since (env.monotonic n)) [
            | true ↦ some claim.1
            | false ↦ run_loop fuel (suc n) (some since) claim.1
          ]
        ]
      ]

-- The PID file: absent, with a text that is no number, or with a process id.
pub data PidFile : Type 0 where
  absent garbled : PidFile
  holds : ℕ → PidFile

-- What `os.kill(pid, 0)` says: nothing, ProcessLookupError or PermissionError.
pub data Probe : Type 0 where
  delivered no_such_process not_permitted : Probe

unfoldable pub is_worker_running : (ℕ → Probe) → PidFile → Bool × PidFile
is_worker_running probe absent = (false, absent)
is_worker_running probe garbled = (false, absent)
is_worker_running probe (holds pid) = elim (probe pid) [
  | delivered ↦ (true, holds pid)
  | no_such_process ↦ (false, absent)
  | not_permitted ↦ (false, absent)
]
