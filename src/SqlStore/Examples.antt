-- ===== src/SqlStore/Examples.antt =====
-- A database of one user and one job, and the theorems at it.
use uade_bot.Prelude.{
  ℕ, ◌+◌, ◌*◌, ◌≡◌, ◌==◌, ◌&&◌, refl, String, none, some, [], ◌∷◌, inr, if◌then◌else◌,
}
use uade_bot.Prelude.Int.{pos}
use uade_bot.Prelude.Exec.{ok, ◌>>◌}
use uade_bot.Scheduler.Types.{
  AccountState, NotificationState, NotificationFragment, Outcome, no_notification_state,
}
use uade_bot.SqlStore.Statements.{
  UserRow, JobRow, ProgressRow, Database, epoch, milli, find_user, find_job,
}
use uade_bot.SqlStore.{
  progress_row, by_key, account_state, save_account_state, notification_state,
  commit_notification_delivery, delivered_notification_fragments, fragments, save_outcome,
  mark_notification_fragment_delivered,
}
use uade_bot.SqlStore.Atomicity.{
  AllOrNothing, with_outcome, with_fragment, with_commit, writes-AllOrNothing,
}
use uade_bot.SqlStore.RoundTrips.{account_state-save_account_state}
use uade_bot.SqlStore.Fragments.{commit-clears}

abbrev ana : UserRow
ana = record {
  discord_user_id = "ana";
  pause_reason = none;
  pause_until = none;
  backoff_attempt = pos 0;
  last_pause_notified_reason = some "needs_credentials";
}

abbrev job_row : JobRow
job_row = record {
  id = "1";
  discord_user_id = "ana";
  filtros_json = "{}";
  materia_code = some "3.4.1";
  channel_id = some "c";
  guild_id = none;
  label = none;
  status = "active";
  last_polled_at = none;
  last_outcome = none;
  last_notified_state = none;
  last_notified_cupos = none;
}

abbrev part : String → ProgressRow
part delivery = record {
  job_id = "1";
  delivery_fingerprint = delivery;
  route = "channel";
  fragment_index = pos 0;
  fragment_count = pos 1;
  fragment_fingerprint = "f";
  delivered_at = pos 5;
}

abbrev database : Database
database = record {
  tables = record {
    users = ana ∷ [];
    credentials = [];
    pending_searches = [];
    admins = [];
    command_log = [];
    next_job = 2;
    jobs = job_row ∷ [];
    progress = part "x" ∷ part "y" ∷ [];
    materias = [];
    history = [];
  };
  faults = [];
}

abbrev limited_state : AccountState
limited_state = record {
  reason = "rate_limited";
  pause_until = epoch + 90 * milli;
  backoff_attempt = pos 2;
  last_pause_notified_reason = "";
}

user_found : find_user "ana" database.tables.users ≡ some ana
unfolding find_user
user_found = refl

job_found : find_job "1" database.tables.jobs ≡ some job_row
unfolding find_job
job_found = refl

account_state-save_account_state_example :
    ((save_account_state "ana" limited_state >> account_state "ana") database).0
    ≡ ok (record limited_state { last_pause_notified_reason = "needs_credentials" })
account_state-save_account_state_example =
    account_state-save_account_state database "ana" limited_state ana refl user_found
      (inr (90, refl))

abbrev seen : NotificationState
seen = record { vacancy_key = "M|Monserrat|08|Lu"; max_cupos = pos 3 }

commit-clears_example :
    let (r, d') = commit_notification_delivery "1" "x" seen database in
    (r ≡ ok tt)
    × ((notification_state "1" d').0
        ≡ ok (if seen.vacancy_key == "" then no_notification_state else seen))
    × ((delivered_notification_fragments "1" "y" d').0
        ≡ ok (
            by_key (
              if "1" == "1" && "x" == "y" then [] else fragments "1" "y" database.tables.progress)))
commit-clears_example = commit-clears database "1" "x" "1" "y" seen job_row refl job_found refl

abbrev as_given : String → String
as_given s = s

writes-AllOrNothing_example :
    ((id : String) (o : Outcome) (now : ℕ)
      → AllOrNothing database.tables
          (with_outcome as_given as_given id o now database.tables)
          (save_outcome as_given as_given id o now database))
    × ((id delivery : String) (f : NotificationFragment)
        → AllOrNothing database.tables
            (with_fragment (progress_row id delivery f) database.tables)
            (mark_notification_fragment_delivered id delivery f database))
    × ((id delivery : String) (s : NotificationState)
        → AllOrNothing database.tables
            (with_commit id delivery s database.tables)
            (commit_notification_delivery id delivery s database))
writes-AllOrNothing_example = writes-AllOrNothing as_given as_given database
