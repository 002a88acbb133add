-- ===== src/Commands/Buscar.antt =====
-- buscar of internal/discordhttp/commands.go: the command that creates a search.
use Prim.Native.String.{◌++◌ as append}
use uade_bot.Prelude.{
  ℕ, zero, suc, ◌+◌, String, ◌==◌, Bool, true, false, ◌&&◌, ◌||◌, not, Option, none, some, List, [],
  ◌∷◌, ◌++◌, if◌then◌else◌, leb, eqb,
}
use uade_bot.Prelude.Trim.{trim_space}
use uade_bot.Prelude.Exec.{Result, ok, err, panic, Exec, pure, fail, ◌>>=◌, ◌>>◌}
use uade_bot.Scheduler.Types.{Error, external}
use uade_bot.SqlStore.Statements.{JobRow, CredentialsRow, Tables, Database, Sql, query}
use uade_bot.Commands.Desk.{
  Desk, Action, Reply, card, modal, message, info, success, warning, danger, Config, JobFilters,
  on_database, call, job_created, nullable, Inserted, skipped, rejected, created, insert_after,
}
use uade_bot.Commands.Jobs.{find_existing_job}
use uade_bot.Commands.Format.{csv_values, filter_valid_dias, matches_materia, filter_summary_block}
use uade_bot.Commands.Searches.{
  save_pending_search, resolve_materia_name, insert_job, name_materia, found_or_none,
}
pub mod Limit

-- the options of the command, empty where one is not given
pub record SearchRequest : Type 0 where
  pub cod_materia : String
  pub turno : String
  pub ofrecimiento : String
  pub dias : String
  pub sedes_excluidas : String
  pub etiqueta : String

-- COUNT(*) FROM credentials WHERE discord_user_id=? is not 0
unfoldable pub has_credentials : String → List CredentialsRow → Bool
has_credentials user [] = false
has_credentials user (r ∷ rs) = r.discord_user_id == user || has_credentials user rs

abbrev pub counts : String → JobRow → Bool
counts user j = j.discord_user_id == user && (j.status == "active" || j.status == "paused_by_user")

-- COUNT(*) FROM jobs WHERE discord_user_id=? AND status IN ('active','paused_by_user')
unfoldable pub current_jobs : String → List JobRow → ℕ
current_jobs user [] = 0
current_jobs user (j ∷ js) =
    let rest = current_jobs user js in if counts user j then rest + 1 else rest

module _ (c : Config) (user channel guild : String) (r : SearchRequest) where
  abbrev code : String
  code = trim_space r.cod_materia

  abbrev dias : List String
  dias = filter_valid_dias r.dias

  abbrev sedes : List String
  sedes = csv_values r.sedes_excluidas false

  abbrev label : String
  label = if r.etiqueta == "" then code else r.etiqueta

  abbrev filters : String
  filters = c.encode (record {
    materia_codigo = code;
    turno = r.turno;
    ofrecimiento = r.ofrecimiento;
    dias = dias;
    sedes_excluidas = sedes;
  })

  abbrev already : String → Reply
  already id = message (
      append "La materia `" (
        append code
          (append "` ya está siendo monitoreada en esta ubicación (búsqueda #" (append id ")."))))

  abbrev after_insert : String → Inserted → Action Reply
  after_insert name skipped = fail (external "")
  after_insert name (rejected e) = do
    id ← on_database (λ d. found_or_none (find_existing_job user guild code d))
    if id == "" then fail e else pure (already id)
  after_insert name (created id) = do
    call c.on_job_created (job_created id)
    pure (
        card success (
          append (filter_summary_block label code name r.turno r.ofrecimiento dias sedes)
            "\n**Monitoreo:** activo"))

  -- resolveErr is answered, and the search is not created
  abbrev named : Result Error String × Desk → Result Error Reply × Desk
  named (err e, d) = (
    ok (card danger "No pude validar esa materia en UADE. No creé la búsqueda; volvé a intentar."),
    d,
  )
  named (panic, d) = (panic, d)
  named (ok name, d) =
      (on_database (
            insert_after (name_materia c code name >>= λ _. pure true)
              (insert_job user filters code (nullable channel) (nullable guild) label))
          >>= after_insert name)
        d

  -- the rest, for a user who has credentials
  unfoldable pub create_search : Action Reply
  unfolding current_jobs find_existing_job resolve_materia_name insert_after insert_job
      filter_valid_dias csv_values filter_summary_block trim_space
  create_search = do
    active ← on_database (query (λ t. ok (current_jobs user t.jobs)))
    if leb 10 active then pure (card warning "Ya tenés 10 búsquedas activas o pausadas.") else do
      id ← on_database (find_existing_job user guild code)
      if not (id == "") then pure (already id) else λ d. named (resolve_materia_name c user code d)

  -- savePendingSearch, and the modal that asks for the credentials
  abbrev pub save_search : Action Reply
  save_search = do
    on_database (save_pending_search user channel guild label filters c.now)
    pure (modal "credentials")

  abbrev pub on_days : List String → Action Reply
  on_days [] = pure (card warning "Los dias tienen que ser alguno de LU, MA, MI, JU, VI, SA.")
  on_days (_ ∷ _) = do
    stored ← on_database (query (λ t. ok (has_credentials user t.credentials)))
    if not stored then save_search else create_search

  unfoldable pub buscar : Action Reply
  unfolding create_search has_credentials save_pending_search matches_materia filter_valid_dias
      csv_values trim_space
  buscar =
      if not (matches_materia code)
      then pure (card warning "El código de materia no es válido (ejemplo: 3.1.050).")
      else on_days dias
