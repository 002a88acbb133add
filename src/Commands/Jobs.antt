-- ===== src/Commands/Jobs.antt =====
-- The commands that change a job: mutateJob, the button of components.go, and findExistingJob.
pub mod Ownership
use Prim.Native.String.{◌++◌ as append}
use uade_bot.Prelude.{
  ℕ, String, ◌==◌, Bool, true, false, ◌&&◌, ◌||◌, not, Option, none, some, List, [], ◌∷◌,
  if◌then◌else◌,
}
use uade_bot.Prelude.Int.{ℤ}
use uade_bot.Prelude.Decimal.{codes, itoa}
use uade_bot.Prelude.Exec.{Result, ok, err, panic, Exec, pure, fail, ◌>>=◌, ◌>>◌}
use uade_bot.Scheduler.Types.{Error, external}
use uade_bot.SqlStore.Statements.{
  JobRow, Tables, Database, Sql, statement, query, execute, find_job, set_jobs, text_or,
}
use uade_bot.JobActions.{deleted, without, progress_without, history_without}
use uade_bot.Uade.Delta.{atoi}
use uade_bot.Commands.Desk.{
  Desk, Action, Reply, card, message, danger, Config, on_database, call, job_created, jobs_changed,
}

-- strconv.ParseInt(text, 10, 64), which accepts what `Atoi` does where `int` has 64 bits
abbrev pub parse_int : String → Option ℤ
parse_int s = atoi (codes s)

-- WHERE id=?, and discord_user_id=? for a user's own command; `id` is the primary key
abbrev pub owns : Bool → String → Option JobRow → Bool
owns admin user none = false
owns admin user (some j) = admin || j.discord_user_id == user

-- the status that mutateJob writes
unfoldable pub status_of : String → String
status_of action =
    if action == "reanudar" then "active" else if action == "pausar" then "paused_by_user" else ""

abbrev pub job_changed : String → String → Tables → Tables
job_changed action id t =
    if action == "detener"
    then deleted id t
    else record t { jobs = set_jobs id (λ j. record j { status = status_of action }) t.jobs }

-- the UPDATE or DELETE, with the test of RowsAffected
unfoldable pub job_change : Bool → String → String → String → Tables → Result Error Bool × Tables
unfolding find_job set_jobs status_of without progress_without history_without
job_change admin user action id t =
    let found = owns admin user (find_job id t.jobs) in
    (ok found, if found then job_changed action id t else t)

unfoldable pub change_job : Bool → String → String → String → Sql Bool
unfolding job_change
change_job admin user action id = statement (job_change admin user action id)

module _ (c : Config) where
  -- mutateJob, for the number that the option gives
  unfoldable pub mutate_number : String → String → Bool → ℤ → Action Reply
  unfolding change_job itoa
  mutate_number user action admin n = do
    found ← on_database (change_job admin user action (itoa n))
    if not found then pure (card danger "No encontré esa búsqueda o no te pertenece.") else do
      call c.on_jobs_changed jobs_changed
      call (action == "reanudar" && c.on_job_created) (job_created (itoa n))
      pure (
          message (
            append "Búsqueda #" (
              append (itoa n) (
                append ": "
                  (append (if action == "detener" then "detenida" else status_of action) ".")))))

  abbrev by_number : String → String → Bool → Option ℤ → Action Reply
  by_number user action admin none = pure (message "Seleccioná una búsqueda válida.")
  by_number user action admin (some n) = mutate_number user action admin n

  unfoldable pub mutate_job : String → String → String → Bool → Action Reply
  unfolding mutate_number atoi
  mutate_job user action text admin = by_number user action admin (parse_int text)

-- findExistingJob: the first row in the order of the ids, which is that of the insertions
abbrev pub same_search : String → String → String → JobRow → Bool
same_search user guild code j =
    j.discord_user_id == user
    && (text_or j.guild_id == guild
        && elim j.materia_code as (λ _. Bool) [ none ↦ false | some m ↦ m == code ])

unfoldable pub existing : String → String → String → List JobRow → String
existing user guild code [] = ""
existing user guild code (j ∷ js) =
    if same_search user guild code j then j.id else existing user guild code js

unfoldable pub find_existing_job : String → String → String → Sql String
unfolding existing
find_existing_job user guild code = query (λ t. ok (existing user guild code t.jobs))
