-- ===== src/JobActions/Examples.antt =====
-- An operator's change of the only job of a database.
use uade_bot.JobActions.{some}
use uade_bot.Prelude.{◌≡◌, ◌==◌, refl, none, [], ◌∷◌}
use uade_bot.SqlStore.Statements.{JobRow, Database, find_job}
use uade_bot.JobActions.{mutate}
use uade_bot.JobActions.Changes.{change_at, find_job-mutate}

abbrev active_job : JobRow
active_job = record {
  id = "1";
  discord_user_id = "ana";
  filtros_json = "{}";
  materia_code = some "3.4.1";
  channel_id = none;
  guild_id = none;
  label = none;
  status = "active";
  last_polled_at = none;
  last_outcome = none;
  last_notified_state = none;
  last_notified_cupos = none;
}

abbrev one_job : Database
one_job = record {
  tables = record {
    users = [];
    credentials = [];
    pending_searches = [];
    admins = [];
    command_log = [];
    next_job = 2;
    jobs = active_job ∷ [];
    progress = [];
    materias = [];
    history = [];
  };
  faults = [];
}

find_job-mutate_example :
    let (r, d') = mutate "pausar" "1" one_job in
    find_job "1" d'.tables.jobs ≡ change_at ("1" == "1") "pausar" (find_job "1" one_job.tables.jobs)
find_job-mutate_example = find_job-mutate "pausar" "1" "1" one_job refl
