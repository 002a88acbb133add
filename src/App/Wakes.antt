-- ===== src/App/Wakes.antt =====
-- What wakes the scheduler in internal/app/runtime.go: safeTick, JobCreated, AccountActivated,
-- pollAllActiveJobsExcept and JobsChanged; and PrepareAccount and ResolveMateria, which the commands call.

use uade_bot.Prelude.{ℕ, String, ◌==◌, ◌&&◌, not, Option, none, some, List, [], ◌∷◌, if◌then◌else◌}
use uade_bot.Prelude.Exec.{Result, ok, err, panic, pure, fail, ◌>>=◌, ◌>>◌}
use uade_bot.Scheduler.Types.{Job, PersistedJob, Error, external}
use uade_bot.Scheduler.Ports.{Act, Ports}
use uade_bot.Scheduler.Outcomes.{on_world}
use uade_bot.Scheduler.Schedule.{Schedule, Poll, poll_now}
use uade_bot.Scheduler.Running.{Scheduler, reconcile, run_once, on_host}
use uade_bot.SqlStore.Statements.{JobRow, Ciphertext, query}
use uade_bot.Commands.Desk.{Credentials}
use uade_bot.Commands.Accounts.{find_credentials}
use uade_bot.App.Polls.{
  Runtime, OnSite, RelinkError, no_rows, stored, of_result, as_other, heal_start_url,
}

-- What a wake comes to. A tick gives the jobs that it starts, with the errors of the accounts that
-- it passed over.
pub data Wake : Type 0 where
  reconcile_failed : Error → Wake
  panicked : Wake
  recovered : Wake  -- recoverGoroutine writes its line
  ticked : List Job → List Error → Wake
  run_failed : Error → Wake
  polled : List Poll → Wake

-- the jobs of an account to poll, in the order of the ids
unfoldable pub active_ids : String → String → List JobRow → List String
active_ids account excluded [] = []
active_ids account excluded (j ∷ js) =
    let rest = active_ids account excluded js in
    if j.discord_user_id == account && (j.status == "active" && not (j.id == excluded))
    then j.id ∷ rest
    else rest

unfoldable pub poll_each : List String → Schedule → List Poll × Schedule
unfolding poll_now
poll_each [] s = ([], s)
poll_each (id ∷ ids) s =
    let (poll, s') = poll_now id s in let (polls, s'') = poll_each ids s' in (poll ∷ polls, s'')

-- recoverGoroutine, deferred
abbrev pub recover_goroutine : Wake → Wake
recover_goroutine panicked = recovered
recover_goroutine recovered = recovered
recover_goroutine (reconcile_failed e) = reconcile_failed e
recover_goroutine (ticked jobs errs) = ticked jobs errs
recover_goroutine (run_failed e) = run_failed e
recover_goroutine (polled polls) = polled polls

module _ {W : Type 0} where
  abbrev pub guarded : Wake × Scheduler W → Wake × Scheduler W
  guarded (wake, s) = (recover_goroutine wake, s)

  abbrev pub poll_on : List String → Scheduler W → Wake × Scheduler W
  poll_on ids s =
      let (polls, schedule) = poll_each ids s.schedule in
      (polled polls, record s { schedule = schedule })

  abbrev ran : Result Error (List Job × List Error) × Scheduler W → Wake × Scheduler W
  ran (ok (jobs, errs), s) = (ticked jobs errs, s)
  ran (err e, s) = (run_failed e, s)
  ran (panic, s) = (panicked, s)

  -- a reconciliation, and what follows it
  abbrev after_reconcile :
      (Scheduler W → Wake × Scheduler W) → Result Error ℕ × Scheduler W → Wake × Scheduler W
  after_reconcile rest (ok _, s) = rest s
  after_reconcile rest (err e, s) = (reconcile_failed e, s)
  after_reconcile rest (panic, s) = (panicked, s)

  -- the rows of pollAllActiveJobsExcept; an error ends it without a line
  abbrev poll_rows : String → String → Result Error (List JobRow) × Scheduler W → Wake × Scheduler W
  poll_rows account excluded (ok rows, s) = poll_on (active_ids account excluded rows) s
  poll_rows account excluded (err e, s) = (polled [], s)
  poll_rows account excluded (panic, s) = (panicked, s)

module _ {W : Type 0} (p : Ports W) (job : PersistedJob → Result Error Job) where
  -- safeTick, up to the wait for the jobs that it starts
  unfoldable pub safe_tick : Scheduler W → Wake × Scheduler W
  unfolding reconcile run_once
  safe_tick s = guarded (after_reconcile (λ s'. ran (run_once p s')) (reconcile p job s))

  unfoldable pub job_created : String → Scheduler W → Wake × Scheduler W
  unfolding reconcile poll_each
  job_created id s = guarded (after_reconcile (poll_on (id ∷ [])) (reconcile p job s))

  unfoldable pub jobs_changed : Scheduler W → Wake × Scheduler W
  unfolding reconcile
  jobs_changed s = guarded (after_reconcile (λ s'. (polled [], s')) (reconcile p job s))

  -- over a read of the table `jobs`
  unfoldable pub poll_all_active_jobs_except :
      Act W (List JobRow) → String → String → Scheduler W → Wake × Scheduler W
  unfolding active_ids poll_each
  poll_all_active_jobs_except rows account excluded s =
      poll_rows account excluded (on_host (on_world rows) s)

  unfoldable pub account_activated :
      Act W (List JobRow) → String → String → Scheduler W → Wake × Scheduler W
  unfolding reconcile poll_all_active_jobs_except
  account_activated rows account excluded s =
      after_reconcile (poll_all_active_jobs_except rows account excluded) (reconcile p job s)

module _ {O : Type 0} (r : Runtime O) where
  abbrev opened : String → Option Ciphertext → OnSite O Error Credentials
  opened account none = fail no_rows
  opened account (some secret) = of_result (r.unseal account secret)

  -- the stored credentials of an account, deciphered
  unfoldable pub stored_credentials : String → OnSite O Error Credentials
  unfolding find_credentials
  stored_credentials account = do
    secret ← stored (query (λ t. ok (find_credentials account t.credentials)))
    opened account secret

  unfoldable pub prepare_account : String → OnSite O RelinkError Unit
  unfolding stored_credentials heal_start_url
  prepare_account account = do
    credentials ← as_other (stored_credentials account)
    heal_start_url r account credentials
    pure tt

  -- resolveMateriaCatalog; `catalog` is the client's ResolveMateria, for a link, a user, a password
  -- and a code
  unfoldable pub resolve_materia_catalog :
      (String → String → String → String → OnSite O Error String)
      → Credentials
      → String
      → OnSite O Error String
  resolve_materia_catalog catalog credentials code =
      if not (r.valid_start_url credentials.start_url)
      then fail (external "invalid or stale uade start url")
      else (of_result (r.site credentials.start_url)
          >> catalog credentials.start_url credentials.username credentials.password code)

  -- ResolveMateria, with the field `catalogResolver`
  abbrev resolver :
      (String → String → String → String → OnSite O Error String)
      → Option (Credentials → String → OnSite O Error String)
      → Credentials
      → String
      → OnSite O Error String
  resolver catalog none = resolve_materia_catalog catalog
  resolver catalog (some f) = f

  unfoldable pub resolve_materia :
      (String → String → String → String → OnSite O Error String)
      → Option (Credentials → String → OnSite O Error String)
      → String
      → String
      → OnSite O Error String
  unfolding stored_credentials resolve_materia_catalog
  resolve_materia catalog custom account code = do
    credentials ← stored_credentials account
    resolver catalog custom credentials code
