-- ===== src/App/Examples/Relinks.antt =====
-- A relink that is refused, at an account of one row.
use uade_bot.Prelude.{◌≡◌, refl, false, none, some, [], ◌∷◌}
use uade_bot.Prelude.Int.{pos}
use uade_bot.Prelude.Exec.{ok, err}
use uade_bot.Scheduler.Types.{no_account_state}
use uade_bot.SqlStore.Statements.{UserRow, Tables, find_user}
use uade_bot.Commands.Desk.{Credentials, JobFilters}
use uade_bot.App.Polls.{
  Runtime, invalid_credentials, resolve_stale_outcome, poll_with, heal_code, coded,
}
use uade_bot.App.Polls.Reasons.{
  site, reason_in, pause_for, rejected, poll_with-agrees, resolve_stale_outcome-overwritten,
}

abbrev refusing : Runtime Unit
refusing = record {
  seal = λ user credentials. ok (record { ciphertext = ""; iv = ""; auth_tag = "" });
  unseal = λ user secret. ok (record { username = ""; password = ""; start_url = "" });
  decode = λ raw. none;
  portal = ok tt;
  relink = λ user password o. (err invalid_credentials, o);
  valid_start_url = λ link. false;
  site = λ link. ok tt;
  search = λ credentials filters o.
      (record { code = "stale_start_url"; materia_nombre = ""; vacancies = [] }, o);
}

abbrev ana : UserRow
ana = record {
  discord_user_id = "ana";
  pause_reason = none;
  pause_until = none;
  backoff_attempt = pos 0;
  last_pause_notified_reason = none;
}

abbrev one_user : Tables
one_user = record {
  users = ana ∷ [];
  credentials = [];
  pending_searches = [];
  admins = [];
  command_log = [];
  next_job = 1;
  jobs = [];
  progress = [];
  materias = [];
  history = [];
}

abbrev login : Credentials
login = record { username = "a"; password = "b"; start_url = "" }

abbrev all_days : JobFilters
all_days = record {
  materia_codigo = "1.1.1";
  turno = "";
  ofrecimiento = "";
  dias = [];
  sedes_excluidas = [];
}

ana_found : find_user "ana" one_user.users ≡ some ana
unfolding find_user
ana_found = refl

poll_with-agrees_example :
    let (answer, s) = poll_with refusing "ana" all_days login (site one_user tt) in
    (answer ≡ ok (coded (heal_code invalid_credentials)))
    × (reason_in "ana" s ≡ "needs_credentials")
    × (pause_for (heal_code invalid_credentials) no_account_state 5 ≡ "needs_credentials")
poll_with-agrees_example =
    poll_with-agrees refusing "ana" all_days login ana one_user tt tt invalid_credentials
      "needs_credentials" no_account_state 5 refl refl ana_found refl rejected

resolve_stale_outcome-overwritten_example :
    let (code, s) = resolve_stale_outcome refusing "ana" login (site one_user tt) in
    (code ≡ ok "stale_start_url")
    × (reason_in "ana" s ≡ "needs_credentials")
    × (pause_for "stale_start_url" no_account_state 5 ≡ "needs_new_start_url")
resolve_stale_outcome-overwritten_example =
    resolve_stale_outcome-overwritten refusing "ana" login ana one_user tt tt no_account_state 5
      refl ana_found refl
