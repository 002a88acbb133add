-- ===== src/App/Polls.antt =====
-- The poll of a job in internal/app/runtime.go: job, poll, healStartURL, resolveStaleOutcome and
-- what they write, over the portal and the site as an outside that may change.
use Prim.Native.String.{◌++◌ as append}
use uade_bot.Prelude.{
  ℕ, String, ◌==◌, Bool, true, false, ◌&&◌, not, Option, none, some, List, [], ◌∷◌, if◌then◌else◌,
  map,
}
use uade_bot.Prelude.Int.{ℤ}
use uade_bot.Prelude.Trim.{trim_space, split_commas}
use uade_bot.Prelude.Exec.{Result, ok, err, panic, Exec, pure, fail, ◌>>=◌, ◌>>◌}
use uade_bot.Scheduler.Types.{Vacancy, Outcome, Job, PersistedJob, AccountState, Error, external}
use uade_bot.Scheduler.Outcomes.{no_outcome}
use uade_bot.SqlStore.Statements.{
  JobRow, Ciphertext, Tables, Database, Sql, query, execute, text_or,
}
use uade_bot.SqlStore.{account_state, save_account_state}
use uade_bot.Commands.Desk.{Credentials, JobFilters}
use uade_bot.Commands.Accounts.{find_credentials, set_credentials}
pub mod Reasons

-- The errors of a relink, by the sentinel that they wrap.
pub data RelinkError : Type 0 where
  invalid_credentials mfa_required enrollment_closed : RelinkError
  other : Error → RelinkError

-- uade.Vacancy and uade.Outcome, where the days are one text
pub record SiteVacancy : Type 0 where
  pub materia : String
  pub turno : String
  pub sede : String
  pub horario : String
  pub dias : String
  pub cupos : ℤ

pub record Found : Type 0 where
  pub code : String
  pub materia_nombre : String
  pub vacancies : List SiteVacancy

pub record Site (O : Type 0) : Type 0 where
  pub database : Database
  pub outside : O

abbrev pub OnSite : Type 0 → Type 0 → Type 0 → Type 0
OnSite O E A = Exec E (Site O) A

-- What the runtime calls of other packages: the cipher, JSON, sso.NewClient, sso.Relink,
-- sso.ValidStartURL, uade.NewClient on a link's host, and Search.
pub record Runtime (O : Type 0) : Type 0 where
  pub seal : String → Credentials → Result Error Ciphertext
  pub unseal : String → Ciphertext → Result Error Credentials
  pub decode : String → Option JobFilters
  pub portal : Result Error Unit
  pub relink : String → String → Exec RelinkError O String
  pub valid_start_url : String → Bool
  pub site : String → Result Error Unit
  pub search : Credentials → JobFilters → O → Found × O

-- ErrNoRows
abbrev pub no_rows : Error
no_rows = external "sql: no rows in result set"

-- the rows of a job that its account owns
unfoldable pub owned_job : String → String → List JobRow → Option JobRow
owned_job id account [] = none
owned_job id account (j ∷ js) =
    if j.id == id && j.discord_user_id == account then some j else owned_job id account js

abbrev from_row : {A : Type 0} → Option A → Result Error A
from_row none = err no_rows
from_row (some a) = ok a

-- the join of an active job with the credentials of its account
abbrev joined_row : Option JobRow → Option Ciphertext → Option (String × Ciphertext)
joined_row (some j) (some secret) =
    if j.status == "active" then some (j.filtros_json, secret) else none
joined_row _ _ = none

unfoldable pub poll_row : String → String → Sql (String × Ciphertext)
unfolding owned_job find_credentials
poll_row id account = query (λ t.
    from_row (joined_row (owned_job id account t.jobs) (find_credentials account t.credentials)))

abbrev site_vacancy : SiteVacancy → Vacancy
site_vacancy v = record {
  materia = v.materia;
  turno = v.turno;
  sede = v.sede;
  horario = v.horario;
  dias = split_commas v.dias;
  cupos = v.cupos;
}

-- what poll answers where the link could not be renewed
unfoldable pub heal_code : RelinkError → String
heal_code invalid_credentials = "invalid_credentials"
heal_code enrollment_closed = "inscripciones_cerradas"
heal_code mfa_required = "stale_start_url"
heal_code (other e) = "stale_start_url"

-- what resolveStaleOutcome answers there
unfoldable pub stale_code : RelinkError → String
stale_code enrollment_closed = "inscripciones_cerradas"
stale_code _ = "stale_start_url"

abbrev pub coded : String → Outcome
coded code = record no_outcome { code = code }

abbrev invalid_filters : Error
invalid_filters = external "invalid stored filters"

-- markNeedsManualStartURL and markNeedsCredentials
unfoldable pub mark_needs : String → String → Sql Unit
mark_needs reason account = do
  current ← account_state account
  save_account_state account (record current { reason = reason })

module _ {O : Type 0} where
  abbrev pub stored : {A : Type 0} → Sql A → OnSite O Error A
  stored m s = let (r, d) = m s.database in (r, record s { database = d })

  abbrev pub named_error : {A : Type 0} → Result Error A × Site O → Result RelinkError A × Site O
  named_error (ok a, s) = (ok a, s)
  named_error (err e, s) = (err (other e), s)
  named_error (panic, s) = (panic, s)

  abbrev pub as_other : {A : Type 0} → OnSite O Error A → OnSite O RelinkError A
  as_other m s = named_error (m s)

  abbrev pub of_result : {A : Type 0} → Result Error A → OnSite O Error A
  of_result r s = (r, s)

  abbrev pub on_outside : {E A : Type 0} → Exec E O A → OnSite O E A
  on_outside m s = let (r, o) = m s.outside in (r, record s { outside = o })

  -- an error that the code drops
  abbrev swallowed : Result Error Unit × Site O → Result RelinkError Unit × Site O
  swallowed (ok _, s) = (ok tt, s)
  swallowed (err _, s) = (ok tt, s)
  swallowed (panic, s) = (panic, s)

  abbrev pub noted : String → RelinkError → OnSite O RelinkError Unit
  noted account invalid_credentials s =
      swallowed (stored (mark_needs "needs_credentials" account) s)
  noted account mfa_required s = swallowed (stored (mark_needs "needs_new_start_url" account) s)
  noted account enrollment_closed s = (ok tt, s)
  noted account (other e) s = (ok tt, s)

module _ {O : Type 0} (r : Runtime O) where
  -- persistStartURL
  unfoldable pub persist_start_url : String → Credentials → OnSite O Error Unit
  unfolding set_credentials
  persist_start_url account credentials = do
    secret ← of_result (r.seal account credentials)
    stored (execute (λ t. record t { credentials = set_credentials account secret t.credentials }))

  abbrev pub relinked :
      String → Credentials → Result RelinkError String × Site O → Result RelinkError String × Site O
  relinked account credentials (ok link, s) =
      (as_other (persist_start_url account (record credentials { start_url = link })) >> pure link)
        s
  relinked account credentials (err e, s) = (noted account e >> fail e) s
  relinked account credentials (panic, s) = (panic, s)

  unfoldable pub heal_start_url : String → Credentials → OnSite O RelinkError String
  unfolding persist_start_url mark_needs
  heal_start_url account credentials = do
    as_other (of_result r.portal)
    λ s.
        relinked account credentials
          (on_outside (r.relink credentials.username credentials.password) s)

  abbrev pub resolved : Result RelinkError String × Site O → Result Error String × Site O
  resolved (ok _, s) = (ok "search_failed", s)
  resolved (err e, s) = (ok (stale_code e), s)
  resolved (panic, s) = (panic, s)

  unfoldable pub resolve_stale_outcome : String → Credentials → OnSite O Error String
  unfolding heal_start_url stale_code
  resolve_stale_outcome account credentials s = resolved (heal_start_url account credentials s)

  -- the code that is answered for a code of Search
  abbrev pub final_code : String → Credentials → String → OnSite O Error String
  final_code account credentials code =
      if code == "stale_start_url" then resolve_stale_outcome account credentials else pure code

  -- the rest of poll, with a link that is valid
  unfoldable pub search_site : String → JobFilters → Credentials → OnSite O Error Outcome
  unfolding resolve_stale_outcome split_commas
  search_site account filters credentials = do
    of_result (r.site credentials.start_url)
    found ← on_outside (λ o. let (f, o') = r.search credentials filters o in (ok f, o'))
    code ← final_code account credentials found.code
    pure (record {
      code = code;
      vacancies = map site_vacancy found.vacancies;
      materia_codigo = filters.materia_codigo;
      materia_nombre = found.materia_nombre;
    })

  abbrev pub healed :
      String
      → JobFilters
      → Credentials
      → Result RelinkError String × Site O
      → Result Error Outcome × Site O
  healed account filters credentials (ok link, s) =
      (if r.valid_start_url link
          then search_site account filters (record credentials { start_url = link })
          else pure (coded "stale_start_url"))
        s
  healed account filters credentials (err e, s) = (ok (coded (heal_code e)), s)
  healed account filters credentials (panic, s) = (panic, s)

  abbrev pub poll_with : String → JobFilters → Credentials → OnSite O Error Outcome
  poll_with account filters credentials s =
      if r.valid_start_url credentials.start_url
      then search_site account filters credentials s
      else healed account filters credentials (heal_start_url account credentials s)

  -- a failure of the cipher is answered as a code
  abbrev unsealed : String → JobFilters → Result Error Credentials → OnSite O Error Outcome
  unsealed account filters (ok credentials) s = poll_with account filters credentials s
  unsealed account filters (err _) s = (ok (coded "invalid_credentials"), s)
  unsealed account filters panic s = (panic, s)

  abbrev filtered : String → Ciphertext → Option JobFilters → OnSite O Error Outcome
  filtered account secret none s = (err invalid_filters, s)
  filtered account secret (some filters) s = unsealed account filters (r.unseal account secret) s

  unfoldable pub poll : String → String → OnSite O Error Outcome
  unfolding poll_row search_site heal_start_url heal_code
  poll id account = do row ← stored (poll_row id account); filtered account row.1 (r.decode row.0)

  -- job: what the scheduler gets for a stored record
  abbrev built : PersistedJob → JobRow → Option JobFilters → OnSite O Error Job
  built p j none = fail invalid_filters
  built p j (some filters) = pure (record {
    account = p.account;
    id = p.id;
    channel = p.channel;
    materia_codigo = filters.materia_codigo;
    label =
        if trim_space (text_or j.label) == ""
        then filters.materia_codigo
        else trim_space (text_or j.label);
    runnable = true;
  })

  unfoldable pub job : PersistedJob → OnSite O Error Job
  unfolding owned_job trim_space
  job p = do
    j ← stored (query (λ t. from_row (owned_job p.id p.account t.jobs)))
    built p j (r.decode j.filtros_json)
