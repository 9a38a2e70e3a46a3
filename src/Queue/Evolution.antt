-- ===== src/Queue/Evolution.antt =====
-- How a table evolves: rows stay, and a status leads to another one as `may_reach` says.
use eda_agent.Base.{
  ℕ, String, ◌≡◌, refl, ap, subst, sym, ◌∙◌, Bool, true, false, not, ◌&&◌, ◌||◌, Option, none, some,
  List, [], ◌∷◌, ◌++◌, arith, str_eq, mem_str, All, map, eq_iff,
}
use eda_agent.Queue.Store.{
  Job, JobStatus, pending, running, success, failed, cancelled, ids, status_eq,
}
use eda_agent.Queue.Rows.{Distinct}
use eda_agent.Queue.Drain.{is_final}
use eda_agent.Queue.System.{World}

-- Where a status may lead: a pending job may become anything, a running one may finish, a finished
-- one stays finished, and a cancelled one stays cancelled.
abbrev pub may_reach : JobStatus → JobStatus → Bool
may_reach pending t = true
may_reach running t = not (status_eq t pending) && not (status_eq t cancelled)
may_reach success t = is_final t
may_reach failed t = is_final t
may_reach cancelled t = status_eq t cancelled

pub may_reach_refl : (s : JobStatus) → may_reach s s ≡ true
may_reach_refl pending = refl
may_reach_refl running = refl
may_reach_refl success = refl
may_reach_refl failed = refl
may_reach_refl cancelled = refl

may_reach_trans :
    (s t u : JobStatus) → may_reach s t ≡ true → may_reach t u ≡ true → may_reach s u ≡ true
may_reach_trans pending t u h k = refl
may_reach_trans s t u h k = ground arith

-- A job that a worker has claimed at some time.
abbrev pub is_started : JobStatus → Bool
is_started pending = false
is_started running = true
is_started success = true
is_started failed = true
is_started cancelled = false

pub started_finishes :
    (s t : JobStatus) → is_started s ≡ true → is_final t ≡ true → may_reach s t ≡ true
started_finishes running t h f = ground arith
started_finishes success t h f = f
started_finishes failed t h f = f
started_finishes pending t h f = ground arith
started_finishes cancelled t h f = ground arith

pub final-is_started : (t : JobStatus) → is_final t ≡ true → is_started t ≡ true
final-is_started t f = ground arith

pub pending_moves : (s t : JobStatus) → status_eq s pending ≡ true → may_reach s t ≡ true
pending_moves pending t h = refl
pending_moves s t h = cc

pub or_left : (a b : Bool) → (a || b) ≡ false → a ≡ false
or_left a b h = ground arith

pub or_right : (a b : Bool) → (a || b) ≡ false → b ≡ false
or_right a b h = ground arith

pub mem_str-snoc :
    (i k : String) (is : List String) → mem_str i (is ++ k ∷ []) ≡ (mem_str i is || str_eq k i)
mem_str-snoc i k [] = ground arith
mem_str-snoc i k (j ∷ is) = ground (arith, mem_str-snoc i k is)

pub Distinct-snoc :
    (k : String) (is : List String) → Distinct is → mem_str k is ≡ false → Distinct (is ++ k ∷ [])
Distinct-snoc k [] d h = (refl, tt)
Distinct-snoc k (j ∷ is) d h = (
  ground (arith, mem_str-snoc j k is, eq_iff k j, eq_iff j k),
  Distinct-snoc k is d.1 (or_right _ _ h),
)

module _ {F : Type 0} where
  -- The rows of a table stay in it, in their order, and the status of each leads on; new rows come behind.
  abbrev pub Evolves : List (Job F) → List (Job F) → Type 0
  Evolves [] ks = Unit
  Evolves (j ∷ js) [] = ⊥
  Evolves (j ∷ js) (k ∷ ks) =
      (k.job_id ≡ j.job_id) × (may_reach j.status k.status ≡ true) × Evolves js ks

  pub Evolves-refl : (js : List (Job F)) → Evolves js js
  Evolves-refl [] = tt
  Evolves-refl (j ∷ js) = (refl, may_reach_refl j.status, Evolves-refl js)

  pub Evolves-trans : (js ks ls : List (Job F)) → Evolves js ks → Evolves ks ls → Evolves js ls
  Evolves-trans [] ks ls h k = tt
  Evolves-trans (j ∷ js) [] ls h k = elim h [ ]
  Evolves-trans (j ∷ js) (x ∷ ks) [] h k = elim k [ ]
  Evolves-trans (j ∷ js) (x ∷ ks) (y ∷ ls) h k = (
    k.0 ∙ h.0,
    may_reach_trans j.status x.status y.status h.1 k.1,
    Evolves-trans js ks ls h.2 k.2,
  )

  pub Evolves-append : (js ks : List (Job F)) → Evolves js (js ++ ks)
  Evolves-append [] ks = tt
  Evolves-append (j ∷ js) ks = (refl, may_reach_refl j.status, Evolves-append js ks)

  -- A change of each row by itself in which each status leads on.
  pub Evolves-map :
      (f : Job F → Job F) (js : List (Job F))
      → All (λ j. ((f j).job_id ≡ j.job_id) × (may_reach j.status (f j).status ≡ true)) js
      → Evolves js (map f js)
  Evolves-map f [] h = tt
  Evolves-map f (j ∷ js) h = (h.0.0, h.0.1, Evolves-map f js h.1)

  -- The row of an id is in the table, and `P` holds of it.
  abbrev pub Tracked : (Job F → Type 0) → String → List (Job F) → Type 0
  Tracked P i js = (mem_str i (ids js) ≡ true) × All (λ j. str_eq j.job_id i ≡ true → P j) js

  abbrev pub Started : Job F → Type 0
  Started j = is_started j.status ≡ true

  -- Started, and under the worker's process id.
  abbrev pub Owned : ℕ → Job F → Type 0
  Owned pid j = Started j × (j.worker_pid ≡ some pid)

  abbrev pub Holds : ℕ → Option String → List (Job F) → Type 0
  Holds pid none js = Unit
  Holds pid (some i) js = Tracked (Owned pid) i js

  -- The ids differ, the job that the worker holds was started by it, and every job that a listing
  -- has met was started.
  pub record IsSound (pid : ℕ) (w : World F) : Type 0 where
    pub distinct : Distinct (ids w.jobs)
    pub holds : Holds pid w.current w.jobs
    pub met : All (λ s. Tracked Started s.job_id w.jobs) w.scanned

  ids-map :
      (f : Job F → Job F) (js : List (Job F))
      → ((j : Job F) → (f j).job_id ≡ j.job_id)
      → ids (map f js) ≡ ids js
  ids-map f [] keep = refl
  ids-map f (j ∷ js) keep = ground (arith, keep j, ids-map f js keep)

  All-map :
      (P : Job F → Type 0) (f : Job F → Job F) (js : List (Job F))
      → ((j : Job F) → P j → P (f j))
      → All P js
      → All P (map f js)
  All-map P f [] g h = tt
  All-map P f (j ∷ js) g h = (g j h.0, All-map P f js g h.1)

  pub All-intro : (P : Job F → Type 0) (js : List (Job F)) → ((j : Job F) → P j) → All P js
  All-intro P [] h = tt
  All-intro P (j ∷ js) h = (h j, All-intro P js h)

  pub All-weaken :
      (P Q : Job F → Type 0) (js : List (Job F)) → ((j : Job F) → P j → Q j) → All P js → All Q js
  All-weaken P Q [] g h = tt
  All-weaken P Q (j ∷ js) g h = (g j h.0, All-weaken P Q js g h.1)

  pub All-append :
      (P : Job F → Type 0) (js ks : List (Job F)) → All P js → All P ks → All P (js ++ ks)
  All-append P [] ks h k = k
  All-append P (j ∷ js) ks h k = (h.0, All-append P js ks h.1 k)

  pub All-without :
      (P : Job F → Type 0) (k : Job F) (js ks : List (Job F))
      → All P (js ++ k ∷ ks)
      → All P (js ++ ks)
  All-without P k [] ks h = h.1
  All-without P k (j ∷ js) ks h = (h.0, All-without P k js ks h.1)

  pub All-middle :
      (P : Job F → Type 0) (k : Job F) (js ks : List (Job F)) → All P (js ++ k ∷ ks) → P k
  All-middle P k [] ks h = h.0
  All-middle P k (j ∷ js) ks h = All-middle P k js ks h.1

  Tracked-map :
      (P : Job F → Type 0) (f : Job F → Job F) (i : String) (js : List (Job F))
      → ((j : Job F) → (f j).job_id ≡ j.job_id)
      → ((j : Job F) → P j → P (f j))
      → Tracked P i js
      → Tracked P i (map f js)
  Tracked-map P f i js keep leave h = (
    ap (mem_str i) (ids-map f js keep) ∙ h.0,
    All-map (λ j. str_eq j.job_id i ≡ true → P j) f js
        (λ j g e. leave j (g (ap (λ k. str_eq k i) (sym (keep j)) ∙ e))) h.1,
  )

  -- A change row by row that keeps the ids, and started jobs started and with their worker, keeps
  -- the system sound.
  pub map-IsSound :
      (pid : ℕ) (f : Job F → Job F) (w : World F)
      → ((j : Job F) → (f j).job_id ≡ j.job_id)
      → ((j : Job F) → Started j → Started (f j) × ((f j).worker_pid ≡ j.worker_pid))
      → IsSound pid w
      → IsSound pid (record w { jobs = map f w.jobs })
  map-IsSound pid f w keep leave s = record {
    distinct = subst Distinct (sym (ids-map f w.jobs keep)) s.distinct;
    holds = kept w.current s.holds;
    met =
        All-weaken (λ r. Tracked Started r.job_id w.jobs)
          (λ r. Tracked Started r.job_id (map f w.jobs)) w.scanned
          (λ r. Tracked-map Started f r.job_id w.jobs keep (λ j h. (leave j h).0)) s.met;
  }
    where
      kept : (c : Option String) → Holds pid c w.jobs → Holds pid c (map f w.jobs)
      kept none h = tt
      kept (some i) h =
          Tracked-map (Owned pid) f i w.jobs keep (λ j o. ((leave j o.0).0, (leave j o.0).1 ∙ o.1))
            h
