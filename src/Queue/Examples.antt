-- ===== src/Queue/Examples.antt =====
-- Concrete job tables, a worker whose stages raise, and a run of the worker with a client.
use eda_agent.Base.{
  ℕ, ◌+◌, ◌≡◌, refl, none, some, List, [], ◌∷◌, false, arith, map, keep_if, raised,
}
use mathlib.Core.List.{Perm}
use eda_agent.Queue.Store.{
  Job, Submission, success, failed, ids, new_job, claim_pending_job, cancel_job, list_jobs,
  has_status, mark_done, fix_row, start_at, update_job,
}
use eda_agent.Queue.Rows.{Distinct}
use eda_agent.Queue.Claims.{ClaimOutcome, CancelOutcome, claim_pending_job_lem, cancel_job_lem}
use eda_agent.Queue.Listing.{repair, IsNewestFirst, list_jobs_lem}
use eda_agent.Queue.Worker.{Stages, Settings, execute_job, run_loop}
use eda_agent.Queue.Drain.{Finished, Settled, pending_count, execute_job_lem, run_loop_drains}
use eda_agent.Queue.System.{World}

abbrev place_stage : Submission ℕ
place_stage = record {
  backend = "openroad";
  stage = "place";
  design_name = "gcd";
  design_config = "gcd.mk";
  pdk = "nangate45";
  params = [];
  stage_start = none;
  stage_end = none;
  run_mode = "stage";
}

abbrev first_job : Job ℕ
first_job = new_job "a" 5 place_stage

abbrev second_job : Job ℕ
second_job = new_job "b" 3 place_stage

abbrev stale_job : Job ℕ
stale_job = start_at 4 77 (new_job "c" 2 place_stage)

abbrev table : List (Job ℕ)
table = first_job ∷ second_job ∷ stale_job ∷ []

table-Distinct : Distinct (ids table)
table-Distinct = (refl, (refl, (refl, tt)))

claim_pending_job_lem_example : ClaimOutcome 9 42 table (claim_pending_job 9 42 table)
claim_pending_job_lem_example = claim_pending_job_lem 9 42 table table-Distinct

cancel_job_lem_example : CancelOutcome "b" table (cancel_job "b" table)
cancel_job_lem_example = cancel_job_lem "b" table table-Distinct

-- No process answers.
list_jobs_lem_example :
    let (listed, after) = list_jobs (λ pid. false) 9 (some failed) table in
    (after ≡ map (repair (λ pid. false) 9) table)
    × IsNewestFirst listed
    × Perm listed (keep_if (has_status (some failed)) (map (repair (λ pid. false) 9) table))
list_jobs_lem_example = list_jobs_lem (λ pid. false) 9 (some failed) table table-Distinct

abbrev broken_stages : Stages ℕ
broken_stages = record {
  run_stage = λ job. raised "no license";
  run_flow = λ job start clean. raised "no license";
}

execute_job_lem_example :
    Finished stale_job
      (first_job ∷ second_job ∷ [])
      []
      (execute_job broken_stages 9 stale_job table)
execute_job_lem_example =
    execute_job_lem broken_stages 9 stale_job (first_job ∷ second_job ∷ []) [] table-Distinct

abbrev worker : Settings ℕ
worker = record {
  stages = broken_stages;
  pid = 42;
  max_idle = some 1;
  wall = λ n. n + 10;
  monotonic = λ n. n;
}

run_loop_drains_example :
    (after : List (Job ℕ)) × (run_loop worker 5 0 none table ≡ some after) × Settled table after
unfolding pending_count
run_loop_drains_example =
    run_loop_drains worker 1 refl (λ n. omega arith) 5 0 table table-Distinct (omega arith)

-- The worker claims and finishes a job, while a listing of a client that cannot reach the worker has
-- met it running: the job succeeds, and has failed afterwards.
abbrev running_job : Job ℕ
running_job = start_at 9 42 second_job

abbrev before : World ℕ
before = record { jobs = second_job ∷ []; current = none; scanned = [] }

abbrev held : World ℕ
held = record { jobs = running_job ∷ []; current = some "b"; scanned = [] }

abbrev met : World ℕ
met = record { jobs = running_job ∷ []; current = some "b"; scanned = running_job ∷ [] }

abbrev ended : World ℕ
ended = record {
  jobs = mark_done 11 "b" success (some 7) none "" (running_job ∷ []);
  current = none;
  scanned = running_job ∷ [];
}

abbrev listed : World ℕ
listed = record {
  jobs = fix_row (λ pid. false) 12 running_job ended.jobs;
  current = none;
  scanned = [];
}

success_is_failed : map (λ (j : Job ℕ). j.status) listed.jobs ≡ failed ∷ []
unfolding mark_done update_job
success_is_failed = refl
