-- ===== src/Scheduler/Running.antt =====
-- The calls of scheduler.go that join the schedule to the store and the jobs' runs: `Reconcile`, the
-- selection of `RunOnce`, the pipeline of one job and the loop of `runAccount`.
pub mod Draining
use uade_bot.Scheduler.Types.{notifier_required}
use uade_bot.Prelude.{eqb}
use uade_bot.Scheduler.Types.{Event}
use uade_bot.Prelude.{
  ℕ, zero, suc, ◌+◌, String, ◌==◌, Bool, true, false, Option, none, some, List, [], ◌∷◌, ◌++◌,
  if◌then◌else◌,
}
use uade_bot.Prelude.Dict
use uade_bot.Prelude.Dict.{Dict}
use uade_bot.Prelude.Sort.{sort}
use uade_bot.Prelude.Exec.{Result, ok, err, panic, Exec, pure, fail, lift, ◌>>=◌, ◌>>◌}
use uade_bot.Scheduler.Types.{
  Outcome, Job, PersistedJob, Error, cancelled, outcome_failed, run_panic, pipeline_panic,
  store_required,
}
use uade_bot.Scheduler.Ports.{Act, Store, Ports, Host}
use uade_bot.Scheduler.Outcomes.{account_paused, handle_outcome, on_world}
use uade_bot.Scheduler.Schedule.{
  Schedule, desired_jobs, apply_desired, pick, next_immediate, finish_account,
}

pub record Scheduler (W : Type 0) : Type 0 where
  pub schedule : Schedule
  pub host : Host W

-- What the jobs and their contexts do: `job.Run`, and whether the `select` takes a token.
pub record Runner (W : Type 0) : Type 0 where
  pub run : Job → Act W Outcome
  pub admitted : W → Bool

module _ {W : Type 0} where
  abbrev pub on_host : {A : Type 0} → Exec Error (Host W) A → Exec Error (Scheduler W) A
  on_host m s = let (r, h) = m s.host in (r, record s { host = h })

  -- Reconcile; an error leaves the schedule as it is
  abbrev need_store : Option (Store W) → Exec Error (Scheduler W) (List PersistedJob)
  need_store none = fail store_required
  need_store (some st) = on_host (on_world st.active_jobs)

  unfoldable pub reconcile :
      Ports W → (PersistedJob → Result Error Job) → Exec Error (Scheduler W) ℕ
  unfolding desired_jobs apply_desired
  reconcile p factory = do
    records ← need_store p.store
    desired ← lift (desired_jobs factory records [])
    λ s.
        (let (added, schedule) = apply_desired desired records s.schedule in
          (ok added, record s { schedule = schedule }))

module _ {W : Type 0} (p : Ports W) where
  -- one account of the loop of `RunOnce`
  unfoldable pub visit : String → Exec Error (Scheduler W) (Option Job)
  unfolding account_paused pick
  visit account = do
    paused ← on_host (account_paused p account)
    if paused then pure none else λ s.
        (let (r, schedule) = pick account s.schedule in (r, record s { schedule = schedule }))

  -- the jobs to start, and the errors of the accounts that are passed over
  abbrev pub Selected : Type 0
  Selected = Result Error (List Job × List Error) × Scheduler W

  abbrev keep_job : Job → Selected → Selected
  keep_job job (ok (jobs, errs), s) = (ok (job ∷ jobs, errs), s)
  keep_job job (err e, s) = (err e, s)
  keep_job job (panic, s) = (panic, s)

  abbrev keep_error : Error → Selected → Selected
  keep_error e (ok (jobs, errs), s) = (ok (jobs, e ∷ errs), s)
  keep_error e (err e', s) = (err e', s)
  keep_error e (panic, s) = (panic, s)

  abbrev collect : Result Error (Option Job) → (Scheduler W → Selected) → Scheduler W → Selected
  collect (ok none) rest s = rest s
  collect (ok (some job)) rest s = keep_job job (rest s)
  collect (err e) rest s = keep_error e (rest s)
  collect panic rest s = (panic, s)

  unfoldable pub select : List String → Scheduler W → Selected
  unfolding visit
  select [] s = (ok ([], []), s)
  select (account ∷ accounts) s = let (r, s') = visit account s in collect r (select accounts) s'

  -- the first half of `RunOnce`, which ends with the jobs that it starts
  unfoldable pub run_once : Scheduler W → Selected
  unfolding select sort Dict.keys
  run_once s = select (sort (Dict.keys s.schedule.jobs)) s

  -- runJobSafely
  abbrev pub run_job_safely : String → Result Error Outcome → Result Error Outcome
  run_job_safely id (ok o) = ok o
  run_job_safely id (err e) = err e
  run_job_safely id panic = err (run_panic id)

  -- the wrapping of an error of `handleOutcome`, and the recovery of a panic
  abbrev pub outcome_error : String → Result Error Unit → Option Error
  outcome_error id (ok _) = none
  outcome_error id (err e) = some (outcome_failed id e)
  outcome_error id panic = some (pipeline_panic id)

  abbrev pub with_outcome : Job → Result Error Outcome → Host W → Option Error × Host W
  with_outcome job (ok o) h = let (r, h') = handle_outcome p job o h in (outcome_error job.id r, h')
  with_outcome job (err e) h = (some e, h)
  with_outcome job panic h = (some (pipeline_panic job.id), h)

  -- runJobPipelineSafely: it ends with an error or none, whatever panics
  unfoldable pub run_job_pipeline : Runner W → Job → Host W → Option Error × Host W
  unfolding handle_outcome
  run_job_pipeline r job h =
      if r.admitted h.world
      then (let (result, w) = r.run job h.world in
          with_outcome job (run_job_safely job.id result) (record h { world = w }))
      else (some cancelled, h)

  abbrev pub add_error : Option Error → List Error → List Error
  add_error none errs = errs
  add_error (some e) errs = errs ++ e ∷ []

  -- the loop of `runAccount`, where no other goroutine comes in between; `none` is no more fuel
  abbrev pub after_job :
      Option Job
      → (Job → Option (List Error × Scheduler W))
      → Option (List Error × Scheduler W)
      → Option (List Error × Scheduler W)
  after_job none again end = end
  after_job (some job) again end = again job

  unfoldable pub run_jobs :
      Runner W → ℕ → String → Job → List Error → Scheduler W → Option (List Error × Scheduler W)
  run_jobs r zero first job errs s = none
  run_jobs r (suc fuel) first job errs s =
      let (e, h) = run_job_pipeline r job s.host in
      let (next, schedule) = next_immediate job.account s.schedule in
      after_job next
        (λ j. run_jobs r fuel first j (add_error e errs) (record { schedule = schedule; host = h }))
        (some
          (add_error e errs, record { schedule = finish_account first false schedule; host = h }))

  unfoldable pub run_account : Runner W → ℕ → Job → Scheduler W → Option (List Error × Scheduler W)
  unfolding run_jobs
  run_account r fuel job s = run_jobs r fuel job.account job [] s

-- ThrottledNotifier.Notify: it sleeps by its clock if there is a delay, and hands the event on
unfoldable pub throttled :
    {W : Type 0} → ℕ → (ℕ → Act W Unit) → Option (Event → Act W Unit) → Event → Act W Unit
throttled delay sleep next event = do
  if eqb delay 0 then pure tt else sleep delay
  elim next [ none ↦ fail notifier_required | some n ↦ n event ]
