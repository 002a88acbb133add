-- ===== src/JobActions.antt =====
-- internal/jobactions/jobactions.go: an operator's changes of a job, by its id alone.
pub mod Changes
mod Examples
use uade_bot.Prelude.{
  ℕ, ◌+◌, String, ◌==◌, Bool, true, false, Option, none, some, List, [], ◌∷◌, if◌then◌else◌,
}
use uade_bot.Prelude.Exec.{Result, ok, err, panic, fail}
use uade_bot.Scheduler.Types.{external}
use uade_bot.SqlStore.Statements.{
  ProgressRow, HistoryRow, JobRow, Tables, Database, Sql, statement, set_jobs,
}

-- RowsAffected
unfoldable pub affected : String → List JobRow → ℕ
affected id [] = 0
affected id (j ∷ js) = let rest = affected id js in if j.id == id then rest + 1 else rest

-- UPDATE jobs SET status=? WHERE id=?
unfoldable pub set_status : String → String → Sql ℕ
unfolding affected set_jobs
set_status id status = statement (λ t. (
  ok (affected id t.jobs),
  record t { jobs = set_jobs id (λ j. record j { status = status }) t.jobs },
))

-- DELETE FROM jobs WHERE id=?
unfoldable pub without : String → List JobRow → List JobRow
without id [] = []
without id (j ∷ js) = let rest = without id js in if j.id == id then rest else j ∷ rest

-- ON DELETE CASCADE of the job's progress and history
unfoldable pub progress_without : String → List ProgressRow → List ProgressRow
progress_without id [] = []
progress_without id (r ∷ rs) =
    let rest = progress_without id rs in if r.job_id == id then rest else r ∷ rest

unfoldable pub history_without : String → List HistoryRow → List HistoryRow
history_without id [] = []
history_without id (r ∷ rs) =
    let rest = history_without id rs in if r.job_id == id then rest else r ∷ rest

abbrev pub deleted : String → Tables → Tables
deleted id t = record t {
  jobs = without id t.jobs;
  progress = progress_without id t.progress;
  history = history_without id t.history;
}

unfoldable pub delete_job : String → Sql ℕ
unfolding affected without progress_without history_without
delete_job id = statement (λ t. (ok (affected id t.jobs), deleted id t))

-- Mutate
unfoldable pub mutate : String → String → Sql ℕ
unfolding set_status delete_job
mutate action id =
    if action == "pausar"
    then set_status id "paused_by_user"
    else if action == "reanudar"
    then set_status id "active"
    else if action == "detener"
    then delete_job id
    else fail (external "jobactions: invalid action")
