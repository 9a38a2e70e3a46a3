-- ===== src/Queue/Drain.antt =====
-- A worker that may idle for a bounded time finishes every pending job and then exits.
use eda_agent.Base.{
  ℕ, zero, suc, String, ◌+◌, ◌≤◌, ◌<◌, ◌≡◌, refl, ap, subst, sym, ◌∙◌, ◌⊎◌, inl, inr, Bool, true,
  false, Option, none, some, List, [], ◌∷◌, ◌++◌, arith, leb, if◌then◌else◌, str_eq, Bool-cases,
  All, Outcome, returned, raised,
}
use eda_agent.Queue.Store.{
  Job, JobStatus, pending, running, success, failed, cancelled, ids, is_pending, start_at, finish,
  claim_pending_job, mark_done,
}
use eda_agent.Queue.Rows.{Distinct, update_job_at}
use eda_agent.Queue.Claims.{claim_pending_job_lem, ids-replace}
use eda_agent.Queue.Worker.{
  StageResult, FlowResult, Stages, final_status, execute_job, Settings, run_loop, idle_too_long,
  finish_flow, finish_stage,
}

abbrev pub is_final : JobStatus → Bool
is_final success = true
is_final failed = true
is_final pending = false
is_final running = false
is_final cancelled = false

final_status-is_final : (s : Option String) → is_final (final_status s) ≡ true
final_status-is_final none = refl
final_status-is_final (some s) = ground arith

module _ {F : Type 0} where
  -- The row of the job that ran: its id is kept and its status is final.
  abbrev pub Finished : Job F → List (Job F) → List (Job F) → List (Job F) → Type 0
  Finished o pre post after =
      (k : Job F) × (after ≡ pre ++ k ∷ post) × (k.job_id ≡ o.job_id) × (is_final k.status ≡ true)

  mark_done_at :
      (now : ℕ) (o : Job F) (s : JobStatus) (r : Option ℕ) (l : Option String) (e : String)
      (pre post : List (Job F))
      → Distinct (ids (pre ++ o ∷ post))
      → is_final s ≡ true
      → Finished o pre post (mark_done now o.job_id s r l e (pre ++ o ∷ post))
  unfolding mark_done
  mark_done_at now o s r l e pre post d f =
      (finish now s r l e o, update_job_at o (finish now s r l e) pre post d, refl, f)

  finish_flow_at :
      (now : ℕ) (o : Job F) (x : Outcome FlowResult) (pre post : List (Job F))
      → Distinct (ids (pre ++ o ∷ post))
      → Finished o pre post (finish_flow now o.job_id x (pre ++ o ∷ post))
  finish_flow_at now o (raised m) pre post d = mark_done_at now o failed _ _ _ pre post d refl
  finish_flow_at now o (returned r) pre post d =
      mark_done_at now o _ _ _ _ pre post d (final_status-is_final r.overall_status)

  finish_stage_at :
      (now : ℕ) (o : Job F) (x : Outcome StageResult) (pre post : List (Job F))
      → Distinct (ids (pre ++ o ∷ post))
      → Finished o pre post (finish_stage now o.job_id x (pre ++ o ∷ post))
  finish_stage_at now o (raised m) pre post d = mark_done_at now o failed _ _ _ pre post d refl
  finish_stage_at now o (returned r) pre post d =
      mark_done_at now o _ _ _ _ pre post d (final_status-is_final r.status)

  -- Whatever the stages do, also when they raise, in a table with distinct ids the job that was
  -- executed ends as success or failed under its id, and no other row changes.
  pub execute_job_lem :
      (stages : Stages F) (now : ℕ) (o : Job F) (pre post : List (Job F))
      → Distinct (ids (pre ++ o ∷ post))
      → Finished o pre post (execute_job stages now o (pre ++ o ∷ post))
  unfolding execute_job
  execute_job_lem stages now o pre post d = elim (Bool-cases (str_eq o.run_mode "flow")) [
    | inl e ↦ rw e (finish_flow_at now o _ pre post d)
    | inr e ↦ rw e (finish_stage_at now o _ pre post d)
  ]

  unfoldable pub pending_count : List (Job F) → ℕ
  pending_count [] = 0
  pending_count (j ∷ js) = (if is_pending j then 1 else 0) + pending_count js

  count_replaced :
      (o k : Job F) (pre post : List (Job F))
      → is_pending o ≡ true
      → is_final k.status ≡ true
      → pending_count (pre ++ o ∷ post) ≡ suc (pending_count (pre ++ k ∷ post))
  unfolding pending_count
  count_replaced o k [] post p f = ground arith
  count_replaced o k (j ∷ pre) post p f = omega (arith, count_replaced o k pre post p f)

  -- What becomes of a row: a pending job is finished, any other is as it was.
  abbrev pub Settles : Job F → Job F → Type 0
  Settles j k =
      ((is_pending j ≡ true) × (k.job_id ≡ j.job_id) × (is_final k.status ≡ true))
      ⊎ ((is_pending j ≡ false) × (k ≡ j))

  abbrev pub Settled : List (Job F) → List (Job F) → Type 0
  Settled [] [] = Unit
  Settled [] (k ∷ ks) = ⊥
  Settled (j ∷ js) [] = ⊥
  Settled (j ∷ js) (k ∷ ks) = Settles j k × Settled js ks

  Settled-idle : (js : List (Job F)) → All (λ j. is_pending j ≡ false) js → Settled js js
  Settled-idle [] h = tt
  Settled-idle (j ∷ js) h = (inr (h.0, refl), Settled-idle js h.1)

  Settles-done :
      (o d k : Job F)
      → is_pending o ≡ true
      → d.job_id ≡ o.job_id
      → is_final d.status ≡ true
      → Settles d k
      → Settles o k
  Settles-done o d k p i f (inl (q, e, g)) = inl (p, e ∙ i, g)
  Settles-done o d k p i f (inr (q, e)) =
      inl (p, ap (λ (j : Job F). j.job_id) e ∙ i, ap (λ (j : Job F). is_final j.status) e ∙ f)

  Settled-replaced :
      (o d : Job F) (pre post ks : List (Job F))
      → is_pending o ≡ true
      → d.job_id ≡ o.job_id
      → is_final d.status ≡ true
      → Settled (pre ++ d ∷ post) ks
      → Settled (pre ++ o ∷ post) ks
  Settled-replaced o d [] post [] p i f h = elim h [ ]
  Settled-replaced o d [] post (k ∷ ks) p i f h = (Settles-done o d k p i f h.0, h.1)
  Settled-replaced o d (j ∷ pre) post [] p i f h = elim h [ ]
  Settled-replaced o d (j ∷ pre) post (k ∷ ks) p i f h =
      (h.0, Settled-replaced o d pre post ks p i f h.1)

module _ {F : Type 0} where
  -- The rest of a round, from what the claim answered.
  abbrev after_claim :
      Settings F → ℕ → ℕ → Option ℕ → Option (Job F) × List (Job F) → Option (List (Job F))
  after_claim env fuel n idle_since r = elim r.0 [
    | some job ↦ run_loop env fuel (suc n) none (execute_job env.stages (env.wall n) job r.1)
    | none ↦ elim idle_since [
      | none ↦ run_loop env fuel (suc n) (some (env.monotonic n)) r.1
      | some since ↦ elim (idle_too_long env since (env.monotonic n)) [
        | true ↦ some r.1
        | false ↦ run_loop env fuel (suc n) (some since) r.1
      ]
    ]
  ]

  round :
      (env : Settings F) (fuel n : ℕ) (idle_since : Option ℕ) (jobs : List (Job F))
      → run_loop env (suc fuel) n idle_since jobs
        ≡ after_claim env fuel n idle_since (claim_pending_job (env.wall n) env.pid jobs)
  unfolding run_loop
  round env fuel n none jobs = refl
  round env fuel n (some since) jobs = refl

  not_pending :
      (o : Job F) (pre post : List (Job F))
      → All (λ j. is_pending j ≡ false) (pre ++ o ∷ post)
      → is_pending o ≡ false
  not_pending o [] post h = h.0
  not_pending o (j ∷ pre) post h = not_pending o pre post h.1

  nothing_claimed :
      (now pid : ℕ) (jobs : List (Job F))
      → All (λ j. is_pending j ≡ false) jobs
      → Distinct (ids jobs)
      → claim_pending_job now pid jobs ≡ (none, jobs)
  nothing_claimed now pid jobs h d = elim (claim_pending_job_lem now pid jobs d) [
    | inl (_, e) ↦ e
    | inr (o, pre, post, q, oldest, e) ↦
        cc (oldest.0, not_pending o pre post (subst (All (λ j. is_pending j ≡ false)) q h))
  ]

  started-Distinct :
      (o : Job F) (pre post : List (Job F)) (k : Job F)
      → o.job_id ≡ k.job_id
      → Distinct (ids (pre ++ o ∷ post))
      → Distinct (ids (pre ++ k ∷ post))
  started-Distinct o pre post k e d = subst Distinct (ids-replace o k pre post e) d

module _ {F : Type 0} (env : Settings F) (m : ℕ) (bounded : env.max_idle ≡ some m)
    (ticks : (n : ℕ) → env.monotonic n + 1 ≤ env.monotonic (suc n)) where
  idle_test :
      (since n : ℕ) → idle_too_long env since (env.monotonic n) ≡ leb (since + m) (env.monotonic n)
  idle_test since n =
      ap (λ (o : Option ℕ). elim o [ none ↦ false | some k ↦ leb (since + k) (env.monotonic n) ])
        bounded

  abbrev after_test : ℕ → ℕ → ℕ → List (Job F) → Bool → Option (List (Job F))
  after_test fuel n since jobs b = elim b [
    | true ↦ some jobs
    | false ↦ run_loop env fuel (suc n) (some since) jobs
  ]

  -- With nothing pending the worker exits once it has idled long enough.
  idle_exit :
      (fuel n since : ℕ) (jobs : List (Job F))
      → All (λ j. is_pending j ≡ false) jobs
      → Distinct (ids jobs)
      → since + m < env.monotonic n + fuel
      → 0 < fuel
      → run_loop env fuel n (some since) jobs ≡ some jobs
  unfolding run_loop
  idle_exit zero n since jobs h d lt pos = absurd (omega arith)
  idle_exit (suc fuel) n since jobs h d lt pos =
      round env fuel n (some since) jobs
      ∙ ap (after_claim env fuel n (some since)) (nothing_claimed (env.wall n) env.pid jobs h d)
      ∙ elim (Bool-cases (leb (since + m) (env.monotonic n))) [
        | inl e ↦ ap (after_test fuel n since jobs) (idle_test since n ∙ e)
        | inr e ↦
            let more : since + m < env.monotonic (suc n) + fuel = omega (arith, ticks n) in
            ap (after_test fuel n since jobs) (idle_test since n ∙ e)
            ∙ idle_exit fuel (suc n) since jobs h d more (ground arith)
      ]

  -- With distinct ids, an idle limit m and a clock that ticks each round, a worker that gets a
  -- round for each pending job and m + 2 more ends, and every job that was pending is finished.
  pub run_loop_drains :
      (fuel n : ℕ) (jobs : List (Job F))
      → Distinct (ids jobs)
      → pending_count jobs + (m + 2) ≤ fuel
      → (after : List (Job F)) × (run_loop env fuel n none jobs ≡ some after) × Settled jobs after
  run_loop_drains zero n jobs d h = absurd (omega arith)
  run_loop_drains (suc fuel) n jobs d h = elim (claim_pending_job_lem (env.wall n) env.pid jobs d) [
    | inl (quiet, e) ↦ (
      jobs,
      round env fuel n none jobs
          ∙ ap (after_claim env fuel n none) e
          ∙ idle_exit fuel (suc n) (env.monotonic n) jobs quiet d (omega (arith, ticks n))
              (omega arith),
      Settled-idle jobs quiet,
    )
    | inr (o, pre, post, q, oldest, e) ↦
        let (k, x, i, f) =
          execute_job_lem env.stages (env.wall n) (start_at (env.wall n) env.pid o) pre post
            (started-Distinct o pre post (start_at (env.wall n) env.pid o) refl (rw q at d)) in
        let (after, r, s) =
          run_loop_drains fuel (suc n) (pre ++ k ∷ post)
            (started-Distinct o pre post k (sym i) (rw q at d))
            (omega (arith, count_replaced o k pre post oldest.0 f, ap pending_count q)) in
        (
          after,
          round env fuel n none jobs
              ∙ ap (after_claim env fuel n none) e
              ∙ ap (run_loop env fuel (suc n) none) x
              ∙ r,
          subst (λ js. Settled js after) (sym q)
              (Settled-replaced o k pre post after oldest.0 i f s),
        )
  ]
