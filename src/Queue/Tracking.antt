-- ===== src/Queue/Tracking.antt =====
-- What is known of the rows that a worker holds or a listing has met.
use eda_agent.Base.{
  ℕ, String, ◌≡◌, refl, ap, subst, sym, ◌∙◌, inl, inr, true, false, Option, none, some, List, [],
  ◌∷◌, ◌++◌, arith, str_eq, str_eq_refl, mem_str, Bool-cases, All, eq_iff, append_assoc,
}
use eda_agent.Queue.Store.{Job, JobStatus, running, ids, status_eq, running_rows}
use eda_agent.Queue.Rows.{Distinct, other_row}
use eda_agent.Queue.System.{World}
use eda_agent.Queue.Evolution.{
  IsSound, Tracked, Started, Owned, is_started, or_left, or_right, mem_str-snoc, Distinct-snoc,
  Holds, All-weaken, All-append,
}

running_started : (s : JobStatus) → status_eq s running ≡ true → is_started s ≡ true
running_started s h = ground arith

module _ {F : Type 0} where
  absent-Tracked :
      (P : Job F → Type 0) (i : String) (js : List (Job F))
      → mem_str i (ids js) ≡ false
      → All (λ j. str_eq j.job_id i ≡ true → P j) js
  absent-Tracked P i [] h = tt
  absent-Tracked P i (j ∷ js) h = (
    (λ e. cc (or_left (str_eq j.job_id i) (mem_str i (ids js)) h)),
    absent-Tracked P i js (or_right (str_eq j.job_id i) (mem_str i (ids js)) h),
  )

  pub Tracked-at :
      (P : Job F → Type 0) (k : Job F) (pre post : List (Job F))
      → Distinct (ids (pre ++ k ∷ post))
      → P k
      → All (λ j. str_eq j.job_id k.job_id ≡ true → P j) (pre ++ k ∷ post)
  Tracked-at P k [] post d h = ((λ e. h), absent-Tracked P k.job_id post d.0)
  Tracked-at P k (j ∷ pre) post d h =
      ((λ e. cc (other_row j.job_id k pre post d.0)), Tracked-at P k pre post d.1 h)

  -- The row `o` is replaced by `k`, of which `P` holds.
  pub Tracked-replace :
      (P : Job F → Type 0) (i : String) (o k : Job F) (pre post : List (Job F))
      → P k
      → All (λ j. str_eq j.job_id i ≡ true → P j) (pre ++ o ∷ post)
      → All (λ j. str_eq j.job_id i ≡ true → P j) (pre ++ k ∷ post)
  Tracked-replace P i o k [] post p h = ((λ e. p), h.1)
  Tracked-replace P i o k (j ∷ pre) post p h = (h.0, Tracked-replace P i o k pre post p h.1)

  pub mem_at :
      (k : Job F) (pre post : List (Job F)) → mem_str k.job_id (ids (pre ++ k ∷ post)) ≡ true
  mem_at k [] post = ground (arith, str_eq_refl k.job_id)
  mem_at k (j ∷ pre) post = ground (arith, mem_at k pre post)

  ids-append-row : (js : List (Job F)) (k : Job F) → ids (js ++ k ∷ []) ≡ ids js ++ k.job_id ∷ []
  ids-append-row [] k = refl
  ids-append-row (j ∷ js) k = ap (◌∷◌ j.job_id) (ids-append-row js k)

  Tracked-submitted :
      (P : Job F → Type 0) (i : String) (js : List (Job F)) (k : Job F)
      → mem_str k.job_id (ids js) ≡ false
      → Tracked P i js
      → Tracked P i (js ++ k ∷ [])
  Tracked-submitted P i js k fresh h = (
    ap (mem_str i) (ids-append-row js k) ∙ mem_str-snoc i k.job_id (ids js) ∙ ground (arith, h.0),
    All-append (λ j. str_eq j.job_id i ≡ true → P j) js (k ∷ []) h.1 ((λ e. cc other), tt),
  )
    where
      other : str_eq k.job_id i ≡ false
      other = ground (arith, eq_iff k.job_id i, h.0)

  pub submitted :
      (pid : ℕ) (w : World F) (k : Job F)
      → mem_str k.job_id (ids w.jobs) ≡ false
      → IsSound pid w
      → IsSound pid (record w { jobs = w.jobs ++ k ∷ [] })
  submitted pid w k fresh s = record {
    distinct =
        subst Distinct (sym (ids-append-row w.jobs k))
          (Distinct-snoc k.job_id (ids w.jobs) s.distinct fresh);
    holds = kept w.current s.holds;
    met =
        All-weaken (λ r. Tracked Started r.job_id w.jobs)
          (λ r. Tracked Started r.job_id (w.jobs ++ k ∷ [])) w.scanned
          (λ r. Tracked-submitted Started r.job_id w.jobs k fresh) s.met;
  }
    where
      kept : (c : Option String) → Holds pid c w.jobs → Holds pid c (w.jobs ++ k ∷ [])
      kept none h = tt
      kept (some i) h = Tracked-submitted (Owned pid) i w.jobs k fresh h

  pub running_rows-Tracked :
      (js : List (Job F))
      → Distinct (ids js)
      → All (λ r. Tracked Started r.job_id js) (running_rows js)
  running_rows-Tracked js d = from [] js d
    where
      from :
          (pre post : List (Job F))
          → Distinct (ids (pre ++ post))
          → All (λ r. Tracked Started r.job_id (pre ++ post)) (running_rows post)
      from pre [] d = tt
      from pre (j ∷ post) d =
          let moved = append_assoc pre (j ∷ []) post in
          let rest =
            subst (λ js. All (λ r. Tracked Started r.job_id js) (running_rows post)) moved
              (from (pre ++ j ∷ []) post (subst (λ js. Distinct (ids js)) (sym moved) d)) in
          elim (Bool-cases (status_eq j.status running)) [
            | inl e ↦ rw e (
              (mem_at j pre post, Tracked-at Started j pre post d (running_started j.status e)),
              rest,
            )
            | inr e ↦ rw e rest
          ]
