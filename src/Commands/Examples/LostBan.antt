-- ===== src/Commands/Examples/LostBan.antt =====
-- A ban that a poll lifts: the poll was under way, and its outcome overwrites the reason.
use uade_bot.Commands.Examples.{true}
use uade_bot.Prelude.{◌≡◌, refl, none, some, []}
use uade_bot.Scheduler.Types.{no_account_state, no_notification_state}
use uade_bot.Scheduler.Ports.{Ports}
use uade_bot.Scheduler.Outcomes.{
  handle_outcome, dispatch_pause, dispatch_vacancy, save_notification_state,
}
use uade_bot.Scheduler.Outcomes
use uade_bot.Scheduler.Backoff.{next_backoff, signal_for}
use uade_bot.SqlStore.Statements.{
  Database, find_user, set_users, set_jobs, query, execute, transaction,
}
use uade_bot.SqlStore
use uade_bot.Commands.Accounts.{admin_ban, upsert_user, reason_text, reason_of}
use uade_bot.Commands.Examples.{after_ban}

abbrev ports : Ports Database
ports = record {
  store = some (SqlStore.sql_store (λ s. s) (λ s. s));
  notifier = none;
  now = λ w. 99;
  digest = λ bs. "";
}

abbrev polled : Database
polled =
    (handle_outcome ports
      (record {
        account = "ana";
        id = "1";
        channel = "";
        materia_codigo = "1.1.1";
        label = "";
        runnable = true;
      })
      (record { code = "no_vacancies"; vacancies = []; materia_codigo = ""; materia_nombre = "" })
      (record {
        memory = λ _. no_account_state;
        notify_mem = λ _. no_notification_state;
        world = after_ban.database;
      })).1.world

banned_before : reason_text (reason_of (find_user "ana" after_ban.database.tables.users)) ≡ "banned"
unfolding admin_ban upsert_user execute find_user
banned_before = refl

free_after : reason_text (reason_of (find_user "ana" polled.tables.users)) ≡ ""
unfolding handle_outcome admin_ban upsert_user execute query find_user set_users set_jobs
    transaction next_backoff signal_for dispatch_pause dispatch_vacancy Outcomes.account_state
    Outcomes.save_account_state Outcomes.notification_state SqlStore.account_state
    SqlStore.save_account_state SqlStore.save_outcome SqlStore.notification_state
free_after = refl
