-- ===== src/Commands/Examples.antt =====
-- A desk of two users, and the theorems at it.
mod LostBan
use uade_bot.Commands.Accounts.{save_credentials}
use uade_bot.Scheduler.Types.{no_notification_state}
use uade_bot.Commands.Accounts.Activation.{with_credentials, asked_job, materialize-saved}
use uade_bot.Commands.Accounts.{in_admins}
use uade_bot.Scheduler.Types.{no_account_state}
use uade_bot.SqlStore.Statements.{PendingRow}
use uade_bot.SqlStore.Statements.{execute}
use uade_bot.SqlStore.Statements.{query}
use uade_bot.SqlStore.{sql_store}
use uade_bot.Prelude.{
  ℕ, ◌+◌, ◌≡◌, ◌≤◌, refl, String, ◌==◌, Bool, true, false, not, ◌&&◌, ◌||◌, Option, none, some,
  List, [], ◌∷◌, ◌++◌, arith, inl, inr, if◌then◌else◌, length, eq_refl,
}
use uade_bot.Prelude.Int.{ℤ, pos, ◌+ℤ◌}
use uade_bot.Prelude.Decimal.{decimal}
use uade_bot.Prelude.Decimal.Widths.{width}
use uade_bot.Prelude.Runes.{rune_count}
use uade_bot.Prelude.Exec.{Result, ok, err, pure, fail, ◌>>=◌}
use uade_bot.Scheduler.Types.{Job, Outcome, AccountState}
use uade_bot.Scheduler.Ports.{Ports, Host, Store}
use uade_bot.Scheduler.Outcomes.{handle_outcome}
use uade_bot.Scheduler.Backoff.{is_paused}
use uade_bot.SqlStore.Statements.{
  UserRow, JobRow, Ciphertext, Tables, Database, find_job, find_user, text_or,
}
use uade_bot.SqlStore.{account_of}
use uade_bot.SqlStore
use uade_bot.Commands.Desk.{
  Desk, Action, Reply, Config, JobFilters, Call, on_database, nullable, message,
}
use uade_bot.Commands.Desk.Frames.{tables_of}
use uade_bot.Commands.Format.{truncate_admin_list, truncate_choice_name}
use uade_bot.Commands.Format.Sizes.{size, truncate_admin_list-short, truncate_choice_name-short}
use uade_bot.Commands.Jobs.{mutate_job, existing}
use uade_bot.Commands.Jobs.Ownership.{mutate_job-foreign}
use uade_bot.Commands.Searches.{
  find_pending, pending_row, save_pending_search, materialize, resolve_materia_name, new_job,
  has_user, find_materia,
}
use uade_bot.Commands.Searches.Pending.{desk, kept}
use uade_bot.Commands.Buscar.{SearchRequest, buscar, current_jobs}
use uade_bot.Commands.Buscar.Limit.{searches, buscar-AtMost}
use uade_bot.Commands.Accounts.{admin_ban, admin_unban, reason_text, reason_of}
use uade_bot.Commands.Accounts.Bans.{
  user_of, banned_row, lifted_row, admin_ban-blocks, admin_unban-lifts,
}
use uade_bot.Commands.Policy.{Policy, Order, ban, unban, grant, perform_all, obey_all, Implements}
use uade_bot.Commands.Policy.Refinement.{perform_all-Implements}
use uade_bot.Commands.Dispatch.{Interaction, Handlers, dispatch}
use uade_bot.Commands.Dispatch.Guards.{dispatch-Frozen}

abbrev no_secret : Ciphertext
no_secret = record { ciphertext = ""; iv = ""; auth_tag = "" }

abbrev pub config : Config
config = record {
  master_key = "k";
  super_admin_id = "root";
  on_job_created = true;
  on_jobs_changed = true;
  on_account_activated = false;
  resolve_materia = none;
  prepare_account = none;
  seal = λ user credentials. ok no_secret;
  unseal = λ user secret. ok (record { username = ""; password = ""; start_url = "" });
  decode = λ raw. record {
    materia_codigo = raw;
    turno = "";
    ofrecimiento = "";
    dias = [];
    sedes_excluidas = [];
  };
  encode = λ filters. filters.materia_codigo;
  normalize = λ name. name;
  valid_start_url = λ link. true;
  now = pos 7;
}

abbrev user_row : String → UserRow
user_row user = record {
  discord_user_id = user;
  pause_reason = none;
  pause_until = none;
  backoff_attempt = pos 0;
  last_pause_notified_reason = none;
}

abbrev job_of : String → String → JobRow
job_of id user = record {
  id = id;
  discord_user_id = user;
  filtros_json = "1.1.1";
  materia_code = some "1.1.1";
  channel_id = none;
  guild_id = none;
  label = none;
  status = "active";
  last_polled_at = none;
  last_outcome = none;
  last_notified_state = none;
  last_notified_cupos = none;
}

abbrev two_users : Tables
two_users = record {
  users = user_row "ana" ∷ user_row "beto" ∷ [];
  credentials = record { discord_user_id = "ana"; secret = no_secret } ∷ [];
  pending_searches = [];
  admins = [];
  command_log = [];
  next_job = 3;
  jobs = job_of "1" "ana" ∷ job_of "2" "beto" ∷ [];
  progress = [];
  materias = [];
  history = [];
}

abbrev start : Desk
start = desk two_users []

abbrev request : SearchRequest
request = record {
  cod_materia = "3.1.050";
  turno = "";
  ofrecimiento = "";
  dias = "lu,ma";
  sedes_excluidas = "";
  etiqueta = "";
}

buscar-AtMost_example : searches "ana" (tables_of (buscar config "ana" "c" "" request start).1) ≤ 10
unfolding current_jobs
buscar-AtMost_example = buscar-AtMost config "ana" "c" "" request start tt few
  where
    few : searches "ana" (tables_of start) ≤ 10
    few = omega arith

truncate_admin_list-short_example : size (truncate_admin_list ("a" ∷ "b" ∷ [])) ≤ 1900 + width 2
truncate_admin_list-short_example = truncate_admin_list-short ("a" ∷ "b" ∷ [])

beto_has : find_job "2" two_users.jobs ≡ some (job_of "2" "beto")
unfolding find_job
beto_has = refl

mutate_job-foreign_example :
    find_job "2" (tables_of (mutate_job config "ana" "detener" "2" false start).1).jobs
    ≡ some (job_of "2" "beto")
mutate_job-foreign_example =
    mutate_job-foreign config "ana" "detener" "2" "2" (job_of "2" "beto") start refl beto_has

admin_ban-blocks_example :
    let d' = (admin_ban "ana" start).1 in
    (reason_text (reason_of (user_of "ana" d')) ≡ "banned")
    × (is_paused (account_of (user_of "ana" d')) 9 ≡ true)
    × (user_of "beto" d' ≡ (
        if "ana" == "beto"
        then some (banned_row "ana" (user_of "ana" start))
        else user_of "beto" start))
    × ((tables_of d').jobs ≡ (tables_of start).jobs)
    × ((tables_of d').credentials ≡ (tables_of start).credentials)
admin_ban-blocks_example = admin_ban-blocks "ana" "beto" 9 start refl refl

abbrev pub after_ban : Desk
after_ban = (admin_ban "ana" start).1

after_ban_ok : after_ban.database.faults ≡ []
unfolding admin_ban execute
after_ban_ok = refl

abbrev handlers : Handlers
handlers = record {
  autocomplete = λ user i. pure (message "");
  component = λ user i. pure (message "");
  microsoft = λ user action. pure (message "");
  estado = λ user admin filter. pure (message "");
  admin_stats = pure (message "");
  admin_user_stats = λ guild user. pure (message "");
}

abbrev ban_by_ana : Interaction
ban_by_ana = record {
  member_user = "ana";
  user = "";
  type_number = 2;
  custom_id = "";
  fields = [];
  name = "admin-ban";
  options = ("usuario", "beto") ∷ [];
  channel_id = "";
  guild_id = "";
}

no_rights : (not ("root" == "") && "ana" == "root") || in_admins "ana" [] ≡ false
unfolding in_admins
no_rights = refl

dispatch-Frozen_example :
    (tables_of (dispatch config handlers 1 ban_by_ana start).1 ≡ tables_of start)
    × ((dispatch config handlers 1 ban_by_ana start).1.calls ≡ start.calls)
dispatch-Frozen_example =
    dispatch-Frozen config handlers 1 ban_by_ana start (inr (inl (refl, refl, no_rights)))

no_pending : find_pending "ana" two_users.pending_searches ≡ none
unfolding find_pending
no_pending = refl

abbrev asked : PendingRow
asked = pending_row "ana" "c" "" "l" "2.2.2" (pos 7)

abbrev sealed : Ciphertext
sealed = record { ciphertext = "x"; iv = "y"; auth_tag = "z" }

abbrev nobody_yet_stored : Tables
nobody_yet_stored = record two_users { users = [] }

unnamed :
    resolve_materia_name config "ana" "2.2.2"
      (desk (kept asked (with_credentials "ana" sealed nobody_yet_stored)) [])
    ≡ (ok "", desk (kept asked (with_credentials "ana" sealed nobody_yet_stored)) [])
unfolding resolve_materia_name query find_materia
unnamed = refl

none_yet : existing "ana" (text_or (nullable "")) "2.2.2" two_users.jobs ≡ ""
unfolding existing
none_yet = refl

materialize-saved_example :
    let (r, d) =
      (on_database (save_pending_search "ana" "c" "" "l" "2.2.2" (pos 7)) >>= λ _.
      (on_database (save_credentials "ana" sealed) >>= λ _. materialize config 1 "ana"))
        (desk nobody_yet_stored []) in
    (r ≡ ok (some (record { id = decimal 3; created = true })))
    × (d.database.tables.jobs
        ≡ two_users.jobs ++ (asked_job 3 "ana" "2.2.2" "2.2.2" "c" "" "l" ∷ []))
    × (d.database.tables.pending_searches ≡ [])
materialize-saved_example =
    materialize-saved config 0 "ana" "c" "" "l" "2.2.2" "" sealed nobody_yet_stored [] no_pending
      unnamed none_yet

abbrev nobody : Policy
nobody = record { bans = λ user. false; admins = λ user. false }

nobody_yet : Implements nobody two_users
unfolding find_user in_admins
nobody_yet user = (by_name ("ana" == user) ("beto" == user), refl)
  where
    by_name :
        (a b : Bool)
        → false ≡ (
            reason_text (
              reason_of
                (if a then some (user_row "ana") else if b then some (user_row "beto") else none))
            == "banned")
    by_name true b = refl
    by_name false true = refl
    by_name false false = refl

perform_all-Implements_example :
    Implements
      (obey_all config (ban "ana" ∷ grant "beto" ∷ unban "ana" ∷ []) nobody)
      (tables_of (perform_all config "root" (ban "ana" ∷ grant "beto" ∷ unban "ana" ∷ []) start))
perform_all-Implements_example =
    perform_all-Implements config "root" (ban "ana" ∷ grant "beto" ∷ unban "ana" ∷ []) nobody
      two_users [] nobody_yet
