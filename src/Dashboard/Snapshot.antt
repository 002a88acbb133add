-- ===== src/Dashboard/Snapshot.antt =====
-- The snapshot that `Build` makes of the tables. The rows of its queries, the names of the courses
-- and the decoders of JSON are given. Where a query fails, `err` stands for the partial snapshot
-- and the error that the code returns.
pub mod Counts
use uade_bot.Prelude.{
  ℕ, ◌+◌, String, ◌==◌, Bool, true, false, ◌&&◌, ◌||◌, Option, none, some, List, [], ◌∷◌, ◌++◌,
  if◌then◌else◌, length, join, map,
}
use uade_bot.Prelude.Dict
use uade_bot.Prelude.Dict.{Dict, value_or}
use uade_bot.Prelude.Int.{ℤ, ltz}
use uade_bot.Prelude.Sort.{les, sort}
use uade_bot.Prelude.Exec.{Result, ok, err, panic}
use uade_bot.Dashboard.Labels.{
  Status, Outcome, Decoded, safe_pause, account_status, job_status, safe_outcome,
}
use uade_bot.Dashboard.History.{HistoryItem, HistoryRow, load_history, code_equal}

pub record Admin : Type 0 where
  pub discord_user_id : String
  pub display_name : String
  pub added_by : String
  pub added_by_display_name : String
  pub created_at : ℤ

pub record Guild : Type 0 where
  pub id : String
  pub name : String
  pub icon_url : String

pub record Filters : Type 0 where
  pub materia_codigo : String
  pub materia_nombre : Option String
  pub ofrecimiento : String
  pub turno : String
  pub dias : List String
  pub sedes_excluidas : List String
  pub sedes_excluidas_label : String

pub record Job : Type 0 where
  pub job_id : ℤ
  pub label : String
  pub status : Status
  pub manually_paused : Bool
  pub last_polled_at : Option ℤ
  pub outcome : Outcome
  pub filters : Filters
  pub history : List HistoryItem

pub record Account : Type 0 where
  pub discord_user_id : String
  pub display_name : String
  pub avatar_url : String
  pub status : Status
  pub pause_until : Option ℤ
  pub job_count : ℕ
  pub last_polled_at : Option ℤ
  pub jobs : List Job

pub record Breakdown : Type 0 where
  pub code : String
  pub label : String
  pub count : ℕ

-- JobsHealth and PausedHealth are written out; the three texts of sysstats are given.
pub record Health : Type 0 where
  pub active_accounts : ℕ
  pub paused_total : ℕ
  pub paused_breakdown : List Breakdown
  pub jobs_total : ℕ
  pub jobs_active : ℕ
  pub jobs_manually_paused : ℕ
  pub last_successful_poll_at : Option ℤ
  pub process_rss : String
  pub process_swap : String
  pub database_size : String

pub record Snapshot : Type 0 where
  pub generated_at : ℤ
  pub bot_guilds : List Guild
  pub health : Health
  pub accounts : List Account
  pub admins : List Admin

pub record AdminRow : Type 0 where
  pub user : String
  pub added_by : String
  pub created_at : ℤ

pub record PauseRow : Type 0 where
  pub user : String
  pub reason : String
  pub until : Option ℤ

pub record RawJob : Type 0 where
  pub id : ℤ
  pub user : String
  pub label : String
  pub status : String
  pub filters : String
  pub outcome : String
  pub last : Option ℤ

-- what json.Unmarshal leaves of the text of the filters
pub record RawFilters : Type 0 where
  pub materia_codigo : String
  pub ofrecimiento : String
  pub turno : String
  pub dias : List String
  pub sedes : List String

-- The rows of each user are one in `users`, its primary key. `materia` is `materiaName`.
pub record Source : Type 0 where
  pub now : ℤ
  pub guilds : List Guild
  pub display_names : Dict String
  pub avatar_urls : Dict String
  pub process_rss : String
  pub process_swap : String
  pub database_size : String
  pub admins : Result String (List AdminRow)
  pub pauses : Result String (List PauseRow)
  pub jobs : Result String (List RawJob)
  pub materia : String → Result String (Option String)
  pub history : ℤ → Result String (List HistoryRow)
  pub unmarshal_outcome : String → Decoded
  pub unmarshal_filters : String → RawFilters

abbrev then_do : {A B : Type 0} → Result String A → (A → Result String B) → Result String B
then_do (ok a) f = f a
then_do (err e) f = err e
then_do panic f = panic

unfoldable pub display_name_or_fallback : Dict String → String → String
unfolding Dict.get
display_name_or_fallback names id =
    let name = value_or (Dict.get names id) "" in if name == "" then id else name

abbrev admin : Dict String → AdminRow → Admin
admin names r = record {
  discord_user_id = r.user;
  display_name = display_name_or_fallback names r.user;
  added_by = r.added_by;
  added_by_display_name = display_name_or_fallback names r.added_by;
  created_at = r.created_at;
}

unfoldable pub max_ptr : Option ℤ → ℤ → Option ℤ
max_ptr none v = some v
max_ptr (some c) v = if ltz c v then some v else some c

-- breakdowns[code]++, and the list of them in the order of the codes
unfoldable pub count_pauses : List PauseRow → Dict ℕ → Dict ℕ
unfolding Dict.get Dict.put safe_pause
count_pauses [] d = d
count_pauses (r ∷ rs) d =
    let code = (safe_pause r.reason).code in
    count_pauses rs (Dict.put d code (value_or (Dict.get d code) 0 + 1))

abbrev insert_breakdown : Breakdown → List Breakdown → List Breakdown
insert_breakdown b [] = b ∷ []
insert_breakdown b (c ∷ cs) =
    let rest = insert_breakdown b cs in if les b.code c.code then b ∷ c ∷ cs else c ∷ rest

unfoldable pub breakdown_list : Dict ℕ → List Breakdown
breakdown_list [] = []
breakdown_list ((code, count) ∷ d) =
    insert_breakdown
      (record { code = (safe_pause code).code; label = (safe_pause code).breakdown; count = count })
      (breakdown_list d)

unfoldable pub pauses_of : List PauseRow → Dict PauseRow → Dict PauseRow
unfolding Dict.put
pauses_of [] d = d
pauses_of (r ∷ rs) d = pauses_of rs (Dict.put d r.user r)

abbrev or_unavailable : String → String
or_unavailable s = if s == "" then "No disponible" else s

abbrev sedes_label : List String → String
sedes_label [] = "Sin exclusiones"
sedes_label (s ∷ ss) = join ", " (s ∷ ss)

unfoldable pub safe_filters : RawFilters → Filters
safe_filters x = record {
  materia_codigo = or_unavailable x.materia_codigo;
  materia_nombre = none;
  ofrecimiento = if x.ofrecimiento == "optativa" then "Optativa" else "Curricular";
  turno = or_unavailable x.turno;
  dias = x.dias;
  sedes_excluidas = x.sedes;
  sedes_excluidas_label = sedes_label x.sedes;
}

-- the reason of a pause, and its end
abbrev reason_of : Option PauseRow → String
reason_of none = ""
reason_of (some p) = p.reason

abbrev until_of : Option PauseRow → Option ℤ
until_of none = none
until_of (some p) = p.until

abbrev polled : Option ℤ → Option ℤ → Option ℤ
polled current none = current
polled current (some v) = max_ptr current v

abbrev pub is_successful : Outcome → Bool
is_successful o = code_equal o.code (some "found") || code_equal o.code (some "no_vacancies")

-- LastSuccessfulPollAt, by a job's last poll and by its history
abbrev by_last : Outcome → Option ℤ → Option ℤ → Option ℤ
by_last o none current = current
by_last o (some v) current = if is_successful o then max_ptr current v else current

unfoldable pub by_history : List HistoryItem → Option ℤ → Option ℤ
unfolding max_ptr
by_history [] current = current
by_history (h ∷ hs) current =
    by_history hs (if is_successful h.outcome then max_ptr current h.recorded_at else current)

-- `grouped` and the health, while the jobs are gone through
pub record Building : Type 0 where
  pub grouped : Dict Account
  pub health : Health

-- the account of a job, made at its first job
abbrev fresh_account : Source → Option PauseRow → RawJob → Account
fresh_account s pause r = record {
  discord_user_id = r.user;
  display_name = display_name_or_fallback s.display_names r.user;
  avatar_url = value_or (Dict.get s.avatar_urls r.user) "";
  status = account_status (reason_of pause);
  pause_until = until_of pause;
  job_count = 0;
  last_polled_at = none;
  jobs = [];
}

abbrev counted : String → Health → Health
counted status h = record h {
  jobs_total = h.jobs_total + 1;
  jobs_active = if status == "active" then h.jobs_active + 1 else h.jobs_active;
  jobs_manually_paused =
      if status == "paused_by_user" then h.jobs_manually_paused + 1 else h.jobs_manually_paused;
}

abbrev newly_active : Option Account → Option PauseRow → Health → Health
newly_active (some a) pause h = h
newly_active none (some p) h = h
newly_active none none h = record h { active_accounts = h.active_accounts + 1 }

abbrev job_of : Option PauseRow → RawJob → Filters → Outcome → List HistoryItem → Job
job_of pause r filters current history = record {
  job_id = r.id;
  label = if r.label == "" then filters.materia_codigo else r.label;
  status = job_status r.status (reason_of pause);
  manually_paused = r.status == "paused_by_user";
  last_polled_at = r.last;
  outcome = current;
  filters = filters;
  history = history;
}

abbrev with_job : Job → Option ℤ → Account → Account
with_job j last a = record a {
  last_polled_at = polled a.last_polled_at last;
  jobs = a.jobs ++ j ∷ [];
  job_count = a.job_count + 1;
}

-- a round of the loop over the jobs, once its queries are answered
unfoldable pub add_job :
    Source → Dict PauseRow → RawJob → Option String → List HistoryRow → Building → Building
unfolding Dict.get Dict.put safe_filters safe_outcome load_history by_history max_ptr account_status
    job_status display_name_or_fallback
add_job s pauses r name rows b =
    let pause = Dict.get pauses r.user in
    let known = Dict.get b.grouped r.user in
    let filters : Filters = record (safe_filters (s.unmarshal_filters r.filters)) {
      materia_nombre = name;
    } in
    let history = load_history rows in
    let current = safe_outcome s.unmarshal_outcome r.outcome in
    let health = newly_active known pause (counted r.status b.health) in
    record {
      grouped = Dict.put b.grouped r.user (
          with_job (job_of pause r filters current history) r.last
            (value_or known (fresh_account s pause r)));
      health = record health {
        last_successful_poll_at =
            by_history history (by_last current r.last health.last_successful_poll_at);
      };
    }

unfoldable pub add_jobs : Source → Dict PauseRow → List RawJob → Building → Result String Building
unfolding add_job safe_filters
add_jobs s pauses [] b = ok b
add_jobs s pauses (r ∷ rs) b =
    then_do (s.materia (safe_filters (s.unmarshal_filters r.filters)).materia_codigo) (λ name.
      then_do (s.history r.id) (λ rows. add_jobs s pauses rs (add_job s pauses r name rows b)))

-- the accounts in the order of their ids
unfoldable pub listed : Dict Account → List String → List Account
unfolding Dict.get
listed grouped [] = []
listed grouped (id ∷ ids) = elim (Dict.get grouped id) [
  | none ↦ listed grouped ids
  | some a ↦ a ∷ listed grouped ids
]

-- by name, and by id for one name
abbrev guild_first : Guild → Guild → Bool
guild_first a b = if a.name == b.name then les a.id b.id else les a.name b.name

abbrev insert_guild : Guild → List Guild → List Guild
insert_guild g [] = g ∷ []
insert_guild g (k ∷ ks) =
    let rest = insert_guild g ks in if guild_first g k then g ∷ k ∷ ks else k ∷ rest

unfoldable pub sort_guilds : List Guild → List Guild
sort_guilds [] = []
sort_guilds (g ∷ gs) = insert_guild g (sort_guilds gs)

abbrev pub start_health : Source → List PauseRow → Health
start_health s pauses = record {
  active_accounts = 0;
  paused_total = length (pauses_of pauses []);
  paused_breakdown = breakdown_list (count_pauses pauses []);
  jobs_total = 0;
  jobs_active = 0;
  jobs_manually_paused = 0;
  last_successful_poll_at = none;
  process_rss = s.process_rss;
  process_swap = s.process_swap;
  database_size = s.database_size;
}

abbrev finished : Source → List AdminRow → Building → Snapshot
finished s admins b = record {
  generated_at = s.now;
  bot_guilds = sort_guilds s.guilds;
  health = b.health;
  accounts = listed b.grouped (sort (Dict.keys b.grouped));
  admins = map (admin s.display_names) admins;
}

-- Build, with a database
unfoldable pub build : Source → Result String Snapshot
unfolding add_jobs listed sort_guilds count_pauses breakdown_list pauses_of
build s = then_do s.admins (λ admins. then_do s.pauses (λ pauses. then_do s.jobs (λ jobs.
    then_do
      (add_jobs s (pauses_of pauses []) jobs
        (record { grouped = []; health = start_health s pauses }))
      (λ b. ok (finished s admins b)))))
