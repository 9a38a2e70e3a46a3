-- ===== src/Queue/Claims.antt =====
-- What `claim_pending_job` and `cancel_job` do to the table and what they answer.
use eda_agent.Base.{
  ℕ, String, ◌≡◌, refl, ap, subst, ◌⊎◌, inl, inr, Bool, true, false, Option, none, some, List, [],
  ◌∷◌, ◌++◌, arith, str_eq, mem_str, Bool-cases, All, eq_iff, any_of, ◌&&◌,
}
use eda_agent.Queue.Store.{
  Job, cancelled, ids, is_pending, update_job, oldest_pending, start_at, claim_pending_job,
  cancel_rows, cancel_job,
}
use eda_agent.Queue.Rows.{
  Distinct, update_job_at, get_job_at, IsOldest, Finds, oldest_pending-Finds,
}

module _ {F : Type 0} where
  -- Nothing is pending, or an oldest pending job is claimed: the table changes in its row alone, and
  -- the row is what the caller gets.
  abbrev pub ClaimOutcome : ℕ → ℕ → List (Job F) → Option (Job F) × List (Job F) → Type 0
  ClaimOutcome now pid jobs r =
      (All (λ j. is_pending j ≡ false) jobs × (r ≡ (none, jobs)))
      ⊎ ((o : Job F) × (pre post : List (Job F)) × (jobs ≡ pre ++ o ∷ post)
          × IsOldest o jobs
          × (r ≡ (some (start_at now pid o), pre ++ start_at now pid o ∷ post)))

  pub ids-replace :
      (o o' : Job F) (pre post : List (Job F))
      → o.job_id ≡ o'.job_id
      → ids (pre ++ o ∷ post) ≡ ids (pre ++ o' ∷ post)
  ids-replace o o' [] post e = ap (λ i. i ∷ ids post) e
  ids-replace o o' (j ∷ pre) post e = ap (◌∷◌ j.job_id) (ids-replace o o' pre post e)

  claimed_row :
      (now pid : ℕ) (jobs pre post : List (Job F)) (o : Job F)
      → Distinct (ids jobs)
      → jobs ≡ pre ++ o ∷ post
      → update_job o.job_id (start_at now pid) jobs ≡ pre ++ start_at now pid o ∷ post
  claimed_row now pid jobs pre post o d e =
      rw e (update_job_at o (start_at now pid) pre post (rw e at d))

  claim_found :
      (now pid : ℕ) (jobs : List (Job F)) (r : Option (Job F))
      → Distinct (ids jobs)
      → Finds jobs r
      → oldest_pending jobs ≡ r
      → ClaimOutcome now pid jobs (claim_pending_job now pid jobs)
  unfolding claim_pending_job
  claim_found now pid jobs none d h e = inl (h, rw (e, claim_pending_job))
  claim_found now pid jobs (some o) d h e =
      let (pre, post, q) = h.1 in
      inr (
        o,
        pre,
        post,
        q,
        h.0,
        rw (e, claim_pending_job, claimed_row now pid jobs pre post o d q)
            (ap (λ x. (x, pre ++ start_at now pid o ∷ post))
              (get_job_at (start_at now pid o) pre post
                (subst Distinct (ids-replace o (start_at now pid o) pre post refl) (rw q at d)))),
      )

  -- In a table with distinct ids a claim answers with an oldest pending job, now running under the
  -- claiming worker, and changes its row alone; it answers with nothing, and changes nothing, when
  -- no job is pending.
  pub claim_pending_job_lem :
      (now pid : ℕ) (jobs : List (Job F))
      → Distinct (ids jobs)
      → ClaimOutcome now pid jobs (claim_pending_job now pid jobs)
  claim_pending_job_lem now pid jobs d =
      claim_found now pid jobs (oldest_pending jobs) d (oldest_pending-Finds jobs) refl

  abbrev pub is_target : String → Job F → Bool
  is_target i j = str_eq j.job_id i && is_pending j

  -- No pending job has the id, or its row alone becomes cancelled.
  abbrev pub CancelOutcome : String → List (Job F) → Bool × List (Job F) → Type 0
  CancelOutcome i jobs r =
      (All (λ j. is_target i j ≡ false) jobs × (r ≡ (false, jobs)))
      ⊎ ((o : Job F) × (pre post : List (Job F)) × (jobs ≡ pre ++ o ∷ post)
          × (is_target i o ≡ true)
          × (r ≡ (true, pre ++ record o { status = cancelled } ∷ post)))

  cancel_rows_absent :
      (i : String) (jobs : List (Job F))
      → mem_str i (ids jobs) ≡ false
      → (cancel_rows i jobs ≡ jobs) × (any_of (is_target i) jobs ≡ false)
  unfolding cancel_rows
  cancel_rows_absent i [] h = (refl, refl)
  cancel_rows_absent i (j ∷ jobs) h = ground (arith, cancel_rows_absent i jobs)

  cancel_first :
      (i : String) (j : Job F) (jobs : List (Job F))
      → mem_str j.job_id (ids jobs) ≡ false
      → is_target i j ≡ true
      → CancelOutcome i (j ∷ jobs) (cancel_job i (j ∷ jobs))
  unfolding cancel_job cancel_rows
  cancel_first i j jobs d t =
      inr (j, [], jobs, refl, t, ground (arith, eq_iff j.job_id i, cancel_rows_absent i jobs))

  cancel_rest :
      (i : String) (j : Job F) (jobs : List (Job F))
      → is_target i j ≡ false
      → CancelOutcome i jobs (cancel_job i jobs)
      → CancelOutcome i (j ∷ jobs) (cancel_job i (j ∷ jobs))
  unfolding cancel_job cancel_rows
  cancel_rest i j jobs t (inl (h, e)) = inl ((t, h), ground arith)
  cancel_rest i j jobs t (inr (o, pre, post, q, k, e)) =
      inr (o, j ∷ pre, post, ap (◌∷◌ j) q, k, ground arith)

  -- In a table with distinct ids a cancellation answers true exactly when a pending job has the
  -- id; then the row of that job is cancelled, and nothing else changes.
  pub cancel_job_lem :
      (i : String) (jobs : List (Job F))
      → Distinct (ids jobs)
      → CancelOutcome i jobs (cancel_job i jobs)
  unfolding cancel_job
  cancel_job_lem i [] d = inl (tt, unfold cancel_rows in refl)
  cancel_job_lem i (j ∷ jobs) d = elim (Bool-cases (is_target i j)) [
    | inl e ↦ cancel_first i j jobs d.0 e
    | inr e ↦ cancel_rest i j jobs e (cancel_job_lem i jobs d.1)
  ]
