-- ===== src/Dashboard/Examples.antt =====
-- A source of one job, and the theorems at it.
use uade_bot.Prelude.{length}
use uade_bot.Prelude.{ℕ, String, ◌+◌, ◌≤◌, ◌≡◌, refl, none, [], ◌∷◌}
use uade_bot.Prelude.Dict
use uade_bot.Prelude.Int.{pos}
use uade_bot.Prelude.Exec.{ok}
use uade_bot.Dashboard.Labels.{unknown_outcome}
use uade_bot.Dashboard.History.{HistoryItem, dedupe_history, take, changes, dedupe_history-take}
use uade_bot.Dashboard.History.Alternating.{Alternates, dedupe_history-Alternates}
use uade_bot.Dashboard.Snapshot.{Source, RawJob, Building, add_job, add_jobs, start_health}
use uade_bot.Dashboard.Snapshot.Counts.{listed_ids, count_of, ids_of, add_jobs-counts}

abbrev item : ℕ → HistoryItem
item n = record { id = pos n; recorded_at = pos n; outcome = unknown_outcome }

dedupe_history-take_example :
    dedupe_history 10 (item 2 ∷ item 1 ∷ []) ≡ take 10 (changes (item 2 ∷ item 1 ∷ []))
dedupe_history-take_example = dedupe_history-take 9 (item 2 ∷ item 1 ∷ [])

dedupe_history-Alternates_example :
    Alternates (dedupe_history 10 (item 2 ∷ item 1 ∷ []))
    × (length (dedupe_history 10 (item 2 ∷ item 1 ∷ [])) ≤ 10)
dedupe_history-Alternates_example = dedupe_history-Alternates 9 (item 2 ∷ item 1 ∷ [])

abbrev raw_job : RawJob
raw_job = record {
  id = pos 1;
  user = "ana";
  label = "";
  status = "active";
  filters = "";
  outcome = "";
  last = none;
}

abbrev source : Source
source = record {
  now = pos 5;
  guilds = [];
  display_names = [];
  avatar_urls = [];
  process_rss = "";
  process_swap = "";
  database_size = "";
  admins = ok [];
  pauses = ok [];
  jobs = ok (raw_job ∷ []);
  materia = λ _. ok none;
  history = λ _. ok [];
  unmarshal_outcome = λ _. none;
  unmarshal_filters =
      λ _. record { materia_codigo = "3.4"; ofrecimiento = ""; turno = ""; dias = []; sedes = [] };
}

abbrev begun : Building
begun = record { grouped = []; health = start_health source [] }

abbrev made : Building
made = add_job source [] raw_job none [] begun

added : add_jobs source [] (raw_job ∷ []) begun ≡ ok made
unfolding add_jobs
added = refl

add_jobs-counts_example :
    ((user : String)
      → (listed_ids (Dict.get made.grouped user) ≡ ids_of user (raw_job ∷ []))
        × (count_of (Dict.get made.grouped user) ≡ length (ids_of user (raw_job ∷ []))))
    × (made.health.jobs_total ≡ 1)
    × (made.health.jobs_active + made.health.jobs_manually_paused ≤ 1)
add_jobs-counts_example = add_jobs-counts source [] [] (raw_job ∷ []) made added
