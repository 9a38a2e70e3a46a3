-- ===== src/Queue/Changes.antt =====
-- The changes of single rows that cancelling, finishing and repairing make.
use eda_agent.Base.{
  String, ◌≡◌, refl, ap, inl, inr, true, ◌&&◌, List, [], ◌∷◌, arith, if◌then◌else◌, str_eq,
  Bool-cases, map,
}
use eda_agent.Queue.Store.{Job, cancelled, is_pending, update_job, cancel_rows}
use eda_agent.Queue.Drain.{is_final}
use eda_agent.Queue.Evolution.{
  Started, may_reach, may_reach_refl, started_finishes, final-is_started,
}

module _ {F : Type 0} where
  pub cancel_row : String → Job F → Job F
  cancel_row i j = if str_eq j.job_id i && is_pending j then record j { status = cancelled } else j

  pub cancel_rows-eq-map :
      (i : String) (js : List (Job F)) → cancel_rows i js ≡ map (cancel_row i) js
  unfolding cancel_rows cancel_row
  cancel_rows-eq-map i [] = refl
  cancel_rows-eq-map i (j ∷ js) = ap (◌∷◌ (cancel_row i j)) (cancel_rows-eq-map i js)

  pub update_row : String → (Job F → Job F) → Job F → Job F
  update_row i f j = if str_eq j.job_id i then f j else j

  pub update_job-eq-map :
      (i : String) (f : Job F → Job F) (js : List (Job F))
      → update_job i f js ≡ map (update_row i f) js
  unfolding update_job update_row
  update_job-eq-map i f [] = refl
  update_job-eq-map i f (j ∷ js) = ap (◌∷◌ (update_row i f j)) (update_job-eq-map i f js)

  pub cancel_row_lem :
      (i : String) (j : Job F)
      → ((cancel_row i j).job_id ≡ j.job_id) × (may_reach j.status (cancel_row i j).status ≡ true)
  unfolding cancel_row
  cancel_row_lem i j = ground (arith, may_reach_refl j.status)

  pub cancel_row_started :
      (i : String) (j : Job F)
      → Started j
      → Started (cancel_row i j) × ((cancel_row i j).worker_pid ≡ j.worker_pid)
  unfolding cancel_row
  cancel_row_started i j h = ground arith

  -- A change of the row of `i` that finishes its job.
  abbrev pub IsFinish : (Job F → Job F) → Type 0
  IsFinish f =
      (j : Job F)
      → ((f j).job_id ≡ j.job_id)
        × ((f j).worker_pid ≡ j.worker_pid)
        × (is_final (f j).status ≡ true)

  pub update_row-moves :
      (i : String) (f : Job F → Job F) (j : Job F)
      → IsFinish f
      → (str_eq j.job_id i ≡ true → Started j)
      → ((update_row i f j).job_id ≡ j.job_id)
        × (may_reach j.status (update_row i f j).status ≡ true)
  unfolding update_row
  update_row-moves i f j g h = elim (Bool-cases (str_eq j.job_id i)) [
    | inl q ↦ rw q ((g j).0, started_finishes j.status (f j).status (h q) (g j).2)
    | inr q ↦ rw q (refl, may_reach_refl j.status)
  ]

  pub update_row-keeps :
      (i : String) (f : Job F → Job F) (j : Job F)
      → IsFinish f
      → ((update_row i f j).job_id ≡ j.job_id)
        × (Started j → Started (update_row i f j) × ((update_row i f j).worker_pid ≡ j.worker_pid))
  unfolding update_row
  update_row-keeps i f j g = elim (Bool-cases (str_eq j.job_id i)) [
    | inl q ↦ rw q ((g j).0, λ h. (final-is_started (f j).status (g j).2, (g j).1))
    | inr q ↦ rw q (refl, λ h. (h, refl))
  ]
