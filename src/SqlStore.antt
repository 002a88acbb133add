-- ===== src/SqlStore.antt =====
-- internal/scheduler/sqlstore.go: the scheduler's store over SQLite. The tables, the statements and
-- the driver are in the child `Statements`; each method below is the sequence of its statements.
pub mod Statements
pub mod Atomicity
pub mod Fragments
pub mod RoundTrips
mod Examples
use uade_bot.SqlStore.Statements.{HistoryRow}
use uade_bot.SqlStore.Statements.{MateriaRow}
use uade_bot.SqlStore.Statements.{statement}
use uade_bot.Prelude.{
  ℕ, zero, suc, ◌+◌, String, ◌==◌, Bool, true, false, ◌&&◌, ◌||◌, not, Option, none, some, List, [],
  ◌∷◌, ◌++◌, map, if◌then◌else◌, length, eqb,
}
use uade_bot.Prelude.Sort.{les}
use uade_bot.Prelude.Int.{ℤ, pos, negsuc, ◌+ℤ◌, ltz, lez, eqz}
use uade_bot.Prelude.Exec.{Result, ok, err, panic, Exec, pure, fail, ◌>>=◌, ◌>>◌}
use uade_bot.Scheduler.Types.{
  Vacancy, Outcome, PersistedJob, AccountState, no_account_state, NotificationState,
  no_notification_state, NotificationFragment, Error, external,
}
use uade_bot.Scheduler.Ports.{Store}
use uade_bot.SqlStore.Statements.{
  UserRow, JobRow, ProgressRow, Tables, Database, Sql, query, execute, transaction, unix_milli,
  from_milli, null_text, text_or, time_or, int_or, find_user, find_job, has_job, find_progress,
  set_users, set_jobs, is_row,
}

-- ActiveJobs
abbrev pub persisted : List JobRow → List PersistedJob
persisted [] = []
persisted (r ∷ rs) =
    let rest = persisted rs in
    if r.status == "active"
    then record { account = r.discord_user_id; id = r.id; channel = text_or r.channel_id } ∷ rest
    else rest

unfoldable pub active_jobs : Sql (List PersistedJob)
active_jobs = query (λ t. ok (persisted t.jobs))

-- AccountState: no row is the zero value
abbrev pub account_of : Option UserRow → AccountState
account_of none = no_account_state
account_of (some u) = record {
  reason = text_or u.pause_reason;
  pause_until = time_or u.pause_until;
  backoff_attempt = u.backoff_attempt;
  last_pause_notified_reason = text_or u.last_pause_notified_reason;
}

unfoldable pub account_state : String → Sql AccountState
account_state account = query (λ t. ok (account_of (find_user account t.users)))

-- the columns that SaveAccountState writes; `updated_at`, which no code reads, is left out
abbrev pub with_state : AccountState → UserRow → UserRow
with_state state u = record u {
  pause_reason = null_text state.reason;
  pause_until = if eqb state.pause_until 0 then none else some (unix_milli state.pause_until);
  backoff_attempt = state.backoff_attempt;
}

unfoldable pub save_account_state : String → AccountState → Sql Unit
unfolding set_users
save_account_state account state =
    execute (λ t. record t { users = set_users account (with_state state) t.users })

-- MarkPauseNotification
unfoldable pub mark_pause_notification : String → String → Sql Unit
unfolding set_users
mark_pause_notification account reason = execute (λ t. record t {
  users =
      set_users account (λ u. record u { last_pause_notified_reason = null_text reason }) t.users;
})

-- NotificationState
abbrev pub notification_of : Option JobRow → NotificationState
notification_of none = no_notification_state
notification_of (some j) = record {
  vacancy_key = text_or j.last_notified_state;
  max_cupos = int_or j.last_notified_cupos;
}

unfoldable pub notification_state : String → Sql NotificationState
notification_state id = query (λ t. ok (notification_of (find_job id t.jobs)))

-- the two columns that SaveNotificationState and CommitNotificationDelivery write
abbrev pub notified : NotificationState → JobRow → JobRow
notified state j =
    if state.vacancy_key == ""
    then record j { last_notified_state = none; last_notified_cupos = none }
    else record j {
      last_notified_state = some state.vacancy_key;
      last_notified_cupos = some state.max_cupos;
    }

unfoldable pub save_notification_state : String → NotificationState → Sql Unit
unfolding set_jobs
save_notification_state id state =
    execute (λ t. record t { jobs = set_jobs id (notified state) t.jobs })

-- the rows of DeliveredNotificationFragments
abbrev pub fragments : String → String → List ProgressRow → List NotificationFragment
fragments id delivery [] = []
fragments id delivery (r ∷ rs) =
    let rest = fragments id delivery rs in
    if r.job_id == id && r.delivery_fingerprint == delivery
    then record {
      route = r.route;
      fragment_index = r.fragment_index;
      fragment_count = r.fragment_count;
      fragment_fingerprint = r.fragment_fingerprint;
      delivered_at = from_milli r.delivered_at;
    }
      ∷ rest
    else rest

-- ORDER BY route, fragment_index
abbrev key_first : NotificationFragment → NotificationFragment → Bool
key_first f g =
    if f.route == g.route then lez f.fragment_index g.fragment_index else les f.route g.route

abbrev insert_fragment :
    NotificationFragment → List NotificationFragment → List NotificationFragment
insert_fragment f [] = f ∷ []
insert_fragment f (g ∷ gs) =
    let rest = insert_fragment f gs in if key_first f g then f ∷ g ∷ gs else g ∷ rest

unfoldable pub by_key : List NotificationFragment → List NotificationFragment
by_key [] = []
by_key (f ∷ fs) = insert_fragment f (by_key fs)

unfoldable pub delivered_notification_fragments : String → String → Sql (List NotificationFragment)
unfolding by_key
delivered_notification_fragments id delivery =
    query (λ t. ok (by_key (fragments id delivery t.progress)))

-- the guards of MarkNotificationFragmentDelivered
abbrev pub missing_identifier : String → String → NotificationFragment → Bool
missing_identifier id delivery f =
    id == "" || (delivery == "" || (f.route == "" || f.fragment_fingerprint == ""))

abbrev pub bad_index : NotificationFragment → Bool
bad_index f =
    ltz f.fragment_count (pos 1)
    || (ltz f.fragment_index (pos 0) || lez f.fragment_count f.fragment_index)

abbrev pub progress_row : String → String → NotificationFragment → ProgressRow
progress_row id delivery f = record {
  job_id = id;
  delivery_fingerprint = delivery;
  route = f.route;
  fragment_index = f.fragment_index;
  fragment_count = f.fragment_count;
  fragment_fingerprint = f.fragment_fingerprint;
  delivered_at = unix_milli f.delivered_at;
}

-- INSERT OR IGNORE, which still holds the foreign key
insert_progress : ProgressRow → Sql Unit
insert_progress row = statement (λ t.
    if has_job row.job_id t.jobs
    then (
      ok tt,
      elim (find_progress row t.progress) [
        | some _ ↦ t
        | none ↦ record t { progress = t.progress ++ row ∷ [] }
      ],
    )
    else (err (external "foreign key"), t))

-- the row that is there after the insertion
abbrev same_fragment : NotificationFragment → Option ProgressRow → Result Error Unit
same_fragment f none = err (external "no rows")
same_fragment f (some r) =
    if eqz r.fragment_count f.fragment_count && r.fragment_fingerprint == f.fragment_fingerprint
    then ok tt
    else err (external "notification delivery fragment conflicts with durable progress")

-- MarkNotificationFragmentDelivered
unfoldable pub mark_notification_fragment_delivered :
    String → String → NotificationFragment → Sql Unit
unfolding insert_progress
mark_notification_fragment_delivered id delivery f =
    if missing_identifier id delivery f
    then fail (external "notification delivery fragment identifiers must not be empty")
    else if bad_index f
    then fail (external "notification delivery fragment index/count is invalid")
    else transaction (do
      insert_progress (progress_row id delivery f)
      query (λ t. same_fragment f (find_progress (progress_row id delivery f) t.progress)))

-- DELETE of a delivery's progress
unfoldable pub drop_progress : String → String → List ProgressRow → List ProgressRow
drop_progress id delivery [] = []
drop_progress id delivery (r ∷ rs) =
    let rest = drop_progress id delivery rs in
    if r.job_id == id && r.delivery_fingerprint == delivery then rest else r ∷ rest

-- the UPDATE with its RowsAffected, which is 1 or 0 as `id` is the key
unfoldable pub update_job : String → NotificationState → Sql Unit
unfolding set_jobs has_job
update_job id state = statement (λ t.
    if has_job id t.jobs
    then (ok tt, record t { jobs = set_jobs id (notified state) t.jobs })
    else (err (external "notification delivery job not found"), t))

-- CommitNotificationDelivery
unfoldable pub commit_notification_delivery : String → String → NotificationState → Sql Unit
unfolding update_job drop_progress
commit_notification_delivery id delivery state =
    if id == "" || delivery == ""
    then fail (external "notification delivery identifiers must not be empty")
    else transaction (do
      update_job id state
      execute (λ t. record t { progress = drop_progress id delivery t.progress }))

-- total += vacancy.Cupos
unfoldable pub total_cupos : ℤ → List Vacancy → ℤ
total_cupos total [] = total
total_cupos total (v ∷ vs) = total_cupos (total +ℤ v.cupos) vs

-- ON CONFLICT(codigo) DO UPDATE
unfoldable pub upsert_materia : MateriaRow → List MateriaRow → List MateriaRow
upsert_materia m [] = m ∷ []
upsert_materia m (r ∷ rs) = if r.codigo == m.codigo then m ∷ rs else r ∷ upsert_materia m rs

abbrev pub is_counted : Outcome → Bool
is_counted o = o.code == "found" || o.code == "no_vacancies"

abbrev pub history_row : String → Outcome → ℕ → HistoryRow
history_row id o now = record {
  job_id = id;
  recorded_at = unix_milli now;
  outcome_code = o.code;
  vacancy_count = if is_counted o then some (pos (length o.vacancies)) else none;
  total_cupos = if is_counted o then some (total_cupos (pos 0) o.vacancies) else none;
}

-- `trim` is strings.TrimSpace, and `normalize` NormalizeMateriaName of internal/uade.
module _ (trim normalize : String → String) where
  -- the statement on `materias`, for a code and a name that are not empty
  save_materia : Outcome → ℕ → Sql Unit
  unfolding upsert_materia
  save_materia o now =
      if trim o.materia_codigo == "" || normalize o.materia_nombre == ""
      then pure tt
      else execute (λ t. record t {
        materias =
            upsert_materia
              (record {
                codigo = trim o.materia_codigo;
                nombre = normalize o.materia_nombre;
                updated_at = unix_milli now;
              })
              t.materias;
      })

  -- INSERT INTO poll_outcome_history, with its foreign key
  save_history : String → Outcome → ℕ → Sql Unit
  unfolding total_cupos has_job
  save_history id o now = statement (λ t.
      if has_job id t.jobs
      then (ok tt, record t { history = t.history ++ history_row id o now ∷ [] })
      else (err (external "foreign key"), t))

  -- SaveOutcome
  unfoldable pub save_outcome : String → Outcome → ℕ → Sql Unit
  unfolding save_materia save_history set_jobs
  save_outcome id o now = transaction (do
    execute (λ t. record t {
      jobs =
          set_jobs id
            (λ j. record j { last_polled_at = some (unix_milli now); last_outcome = some o.code })
            t.jobs;
    })
    save_materia o now
    save_history id o now)

  -- `SQLStore` as the scheduler's `Store`
  abbrev pub sql_store : Store Database
  sql_store = record {
    active_jobs = active_jobs;
    account_state = account_state;
    save_account_state = save_account_state;
    notification_state = notification_state;
    save_notification_state = save_notification_state;
    delivered_notification_fragments = delivered_notification_fragments;
    mark_notification_fragment_delivered = mark_notification_fragment_delivered;
    commit_notification_delivery = commit_notification_delivery;
    save_outcome = save_outcome;
    mark_pause_notification = mark_pause_notification;
  }
