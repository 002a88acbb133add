-- ===== src/Commands/Accounts.antt =====
-- The accounts' side of internal/discordhttp/commands.go: credentials, the manual link, the
-- administrators, bans and the log.
use Prim.Native.String.{◌++◌ as append}
use uade_bot.Prelude.{
  ℕ, zero, suc, ◌+◌, String, ◌==◌, Bool, true, false, ◌&&◌, ◌||◌, not, Option, none, some, List, [],
  ◌∷◌, ◌++◌, if◌then◌else◌, leb, eqb, ltb, length,
}
use uade_bot.Prelude.Int.{ℤ, pos}
use uade_bot.Prelude.Decimal.{decimal}
use uade_bot.Prelude.Trim.{trim_space}
use uade_bot.Prelude.Exec.{Result, ok, err, panic, Exec, pure, fail, lift, ◌>>=◌, ◌>>◌}
use uade_bot.Scheduler.Types.{Error, external}
use uade_bot.SqlStore.Statements.{
  UserRow, JobRow, AdminRow, LogRow, HistoryRow, Ciphertext, CredentialsRow, Tables, Database, Sql,
  statement, query, execute, transaction, find_user, set_users, text_or,
}
use uade_bot.Commands.Desk.{
  Desk, Action, Reply, card, modal, message, info, success, warning, danger, Config, JobFilters,
  Credentials, on_database, call, job_created, jobs_changed, account_activated, activation_started,
  nullable,
}
use uade_bot.Commands.Format.{filter_summary_block}
use uade_bot.Commands.Searches.{JobCreation, materialize, find_materia}
pub mod Bans
pub mod Activation

abbrev has_field : String → List (String × String) → Bool
has_field name [] = false
has_field name ((field, _) ∷ rest) = field == name || has_field name rest

-- modalValues: the last value of a field, trimmed, of the fields that were submitted
unfoldable pub modal_value : String → List (String × String) → String
unfolding trim_space
modal_value name [] = ""
modal_value name ((field, value) ∷ rest) =
    let later = modal_value name rest in
    if field == name && not (has_field name rest) then trim_space value else later

-- SELECT ciphertext,iv,auth_tag FROM credentials WHERE discord_user_id=?
unfoldable pub find_credentials : String → List CredentialsRow → Option Ciphertext
find_credentials user [] = none
find_credentials user (r ∷ rs) =
    if r.discord_user_id == user then some r.secret else find_credentials user rs

abbrev pub new_user : String → Option String → UserRow
new_user user reason = record {
  discord_user_id = user;
  pause_reason = reason;
  pause_until = none;
  backoff_attempt = pos 0;
  last_pause_notified_reason = none;
}

-- INSERT INTO users ... ON CONFLICT(discord_user_id) DO UPDATE
unfoldable pub upsert_user : UserRow → (UserRow → UserRow) → List UserRow → List UserRow
upsert_user fresh f [] = fresh ∷ []
upsert_user fresh f (u ∷ us) =
    if u.discord_user_id == fresh.discord_user_id then f u ∷ us else u ∷ upsert_user fresh f us

abbrev pub resumed : UserRow → UserRow
resumed u = record u { pause_reason = none; pause_until = none; backoff_attempt = pos 0 }

unfoldable pub resume_user : String → Sql Unit
unfolding upsert_user
resume_user user =
    execute (λ t. record t { users = upsert_user (new_user user none) resumed t.users })

unfoldable pub put_credentials : CredentialsRow → List CredentialsRow → List CredentialsRow
put_credentials r [] = r ∷ []
put_credentials r (s ∷ rs) =
    if s.discord_user_id == r.discord_user_id then r ∷ rs else s ∷ put_credentials r rs

-- UPDATE credentials SET ... WHERE discord_user_id=?
unfoldable pub set_credentials : String → Ciphertext → List CredentialsRow → List CredentialsRow
set_credentials user secret [] = []
set_credentials user secret (r ∷ rs) =
    (if r.discord_user_id == user then record r { secret = secret } else r)
    ∷ set_credentials user secret rs

unfoldable pub save_credentials : String → Ciphertext → Sql Unit
unfolding resume_user put_credentials transaction
save_credentials user secret = transaction do
  resume_user user
  execute (λ t. record t {
    credentials =
        put_credentials (record { discord_user_id = user; secret = secret }) t.credentials;
  })

unfoldable pub save_link : String → Ciphertext → Sql Unit
unfolding set_credentials set_users transaction
save_link user secret = transaction do
  execute (λ t. record t { credentials = set_credentials user secret t.credentials })
  execute (λ t. record t { users = set_users user resumed t.users })

-- the pause reason of a stored user, and none for one who is not
abbrev pub reason_of : Option UserRow → Option (Option String)
reason_of none = none
reason_of (some u) = some u.pause_reason

unfoldable pub pause_reason : String → Sql (Option (Option String))
unfolding find_user
pause_reason user = query (λ t. ok (reason_of (find_user user t.users)))

-- `reason.String`, of a row or of none
abbrev pub reason_text : Option (Option String) → String
reason_text none = ""
reason_text (some r) = text_or r

unfoldable pub actor_blocked : String → Action Bool
unfolding pause_reason
actor_blocked user = do
  reason ← on_database (pause_reason user)
  pure (reason_text reason == "banned")

unfoldable pub credenciales_modal : String → Action Reply
unfolding pause_reason
credenciales_modal user = do
  reason ← on_database (pause_reason user)
  pure (
      modal
        (if reason_text reason == "needs_new_start_url" then "sso_manual_link" else "credentials"))

-- COUNT(*) FROM admins WHERE discord_user_id=?
unfoldable pub in_admins : String → List AdminRow → Bool
in_admins user [] = false
in_admins user (a ∷ others) = a.discord_user_id == user || in_admins user others

unfoldable pub put_admin : AdminRow → List AdminRow → List AdminRow
put_admin a [] = a ∷ []
put_admin a (b ∷ bs) = if b.discord_user_id == a.discord_user_id then a ∷ bs else b ∷ put_admin a bs

unfoldable pub without_admin : String → List AdminRow → List AdminRow
without_admin user [] = []
without_admin user (a ∷ others) =
    let rest = without_admin user others in if a.discord_user_id == user then rest else a ∷ rest

-- `before ++ "<@" ++ user ++ ">" ++ after`
abbrev about : String → String → String → Reply
about before user after = message (append before (append "<@" (append user (append ">" after))))

abbrev select_user : Action Reply
select_user = pure (message "Seleccioná un usuario.")

abbrev pub banned : UserRow → UserRow
banned u = record u { pause_reason = some "banned"; pause_until = none }

unfoldable pub admin_ban : String → Action Reply
unfolding upsert_user
admin_ban target = if target == "" then select_user else do
  on_database (
      execute
        (λ t. record t { users = upsert_user (new_user target (some "banned")) banned t.users }))
  pure (about "Bloqueé a " target ". Sus búsquedas quedaron pausadas, sin borrarse.")

abbrev pub is_banned : UserRow → Bool
is_banned u = text_or u.pause_reason == "banned"

abbrev pub was_banned : Option UserRow → Bool
was_banned none = false
was_banned (some u) = is_banned u

-- UPDATE users SET pause_reason=NULL WHERE discord_user_id=? AND pause_reason='banned'
unfoldable pub unban_user : String → Sql Bool
unfolding find_user set_users
unban_user target = statement (λ t. (
  ok (was_banned (find_user target t.users)),
  record t {
    users =
        set_users target (λ u. if is_banned u then record u { pause_reason = none } else u) t.users;
  },
))

abbrev not_banned : String → Option (Option String) → Reply
not_banned target none = about "" target " no está registrado."
not_banned target (some reason) =
    if not (text_or reason == "")
    then about "" target (
        append " no estaba bloqueado por admin-ban; su pausa actual es por otro motivo ("
          (append (text_or reason) ") y no la modifiqué."))
    else about "" target " no estaba bloqueado."

unfoldable pub admin_unban : String → Action Reply
unfolding unban_user pause_reason
admin_unban target = if target == "" then select_user else do
  affected ← on_database (unban_user target)
  if affected
      then pure (about "Desbloqueé a " target ". Sus búsquedas se reanudan en el próximo sondeo.")
      else do reason ← on_database (pause_reason target); pure (not_banned target reason)

-- SELECT ... FROM jobs WHERE id=? AND discord_user_id=?
unfoldable pub own_job : String → String → List JobRow → Result Error JobRow
own_job id user [] = err (external "sql: no rows in result set")
own_job id user (j ∷ js) =
    if j.id == id && j.discord_user_id == user then ok j else own_job id user js

module _ (c : Config) where
  unfoldable pub is_admin : String → Action Bool
  unfolding in_admins
  is_admin user =
      if not (c.super_admin_id == "") && user == c.super_admin_id
      then pure true
      else on_database (query (λ t. ok (in_admins user t.admins)))

  unfoldable pub superadmin_agregar : String → String → Action Reply
  unfolding put_admin
  superadmin_agregar super target =
      if target == ""
      then select_user
      else if target == c.super_admin_id
      then pure (
          message
            "El super-admin ya tiene acceso de administrador siempre; no hace falta ni se permite agregarlo a la tabla admins.")
      else do
        on_database (
            execute (λ t. record t {
              admins =
                  put_admin
                    (record { discord_user_id = target; added_by = super; created_at = c.now })
                    t.admins;
            }))
        pure (about "Agregué a " target " como admin.")

  unfoldable pub superadmin_eliminar : String → Action Reply
  unfolding in_admins without_admin
  superadmin_eliminar target =
      if target == ""
      then select_user
      else if target == c.super_admin_id
      then pure (
          message
            "El super-admin ya tiene acceso de administrador siempre; no hace falta ni se permite eliminarlo de la tabla admins.")
      else do
        removed ← on_database (
            statement (λ t. (
              ok (in_admins target t.admins),
              record t { admins = without_admin target t.admins },
            )))
        pure (
            about "" target
              (if not removed then " no estaba en la tabla de admins." else " ya no es admin."))

  unfoldable pub log_command : String → String → String → Action Unit
  log_command user name guild = on_database (
      execute (λ t. record t {
        command_log =
            t.command_log
            ++ (record {
              discord_user_id = user;
              command_name = name;
              guild_id = nullable guild;
              created_at = c.now;
            }
                ∷ []);
      }))

  -- readCredentials: none for sql.ErrNoRows
  abbrev unsealed : String → Option Ciphertext → Action (Option Credentials)
  unsealed user none = pure none
  unsealed user (some secret) = do found ← lift (c.unseal user secret); pure (some found)

  unfoldable pub read_credentials : String → Action (Option Credentials)
  unfolding find_credentials
  read_credentials user = do
    row ← on_database (query (λ t. ok (find_credentials user t.credentials)))
    unsealed user row

  abbrev link_of : Option Credentials → String
  link_of none = ""
  link_of (some found) = found.start_url

  -- lookupMateriaNombre, whose errors count as no name
  abbrev no_name : Result Error String × Database → Result Error String × Database
  no_name (ok name, d) = (ok name, d)
  no_name (err e, d) = (ok "", d)
  no_name (panic, d) = (panic, d)

  unfoldable pub lookup_materia_nombre : String → Sql String
  unfolding find_materia trim_space
  lookup_materia_nombre code d = no_name (
      query
        (λ t. ok (elim (find_materia code t.materias) as (λ _. String) [
          | none ↦ ""
          | some m ↦ trim_space m.nombre
        ]))
        d)

  abbrev summary_of : JobRow → String → String
  summary_of j name =
      let f = c.decode j.filtros_json in
      filter_summary_block (text_or j.label) f.materia_codigo name f.turno f.ofrecimiento f.dias
        f.sedes_excluidas

  -- the end of submitCredentials, with what the pending search has become
  abbrev created_reply : String → JobCreation → Action Reply
  created_reply user creation =
      if creation.id == ""
      then pure (
          card success
            "Credenciales guardadas de forma cifrada. Todavía no creé ninguna búsqueda: volvé a usar /buscar para crearla.")
      else do
        call (creation.created && c.on_job_created) (job_created creation.id)
        j ← on_database (query (λ t. own_job creation.id user t.jobs))
        name ← on_database (lookup_materia_nombre (c.decode j.filtros_json).materia_codigo)
        pure (
            card success (
              append
                "Credenciales guardadas de forma cifrada. Ya creé la búsqueda que habías pedido con /buscar.\n\n"
                (summary_of j name)))

  -- jobErr is answered; none is the end of the fuel
  abbrev after_materialize :
      String → Result Error (Option JobCreation) × Desk → Result Error (Option Reply) × Desk
  after_materialize user (err e, d) = (
    ok (
        some (
          card danger
            "Credenciales guardadas, pero no pude validar la materia pendiente en UADE. No creé la búsqueda; volvé a intentar.")),
    d,
  )
  after_materialize user (panic, d) = (panic, d)
  after_materialize user (ok none, d) = (ok none, d)
  after_materialize user (ok (some creation), d) =
      (created_reply user creation >>= λ reply. pure (some reply)) d

  abbrev activate : Option (String → Action Unit) → ℕ → String → Action (Option Reply)
  activate none fuel user d = after_materialize user (materialize c fuel user d)
  activate (some _) fuel user d =
      (call true (activation_started user)
          >> pure (
              some (
                card success
                  "Credenciales guardadas de forma cifrada. La activación de tus búsquedas está en curso.")))
        d

  unfoldable pub submit_credentials :
      ℕ → String → String → List (String × String) → Action (Option Reply)
  unfolding read_credentials save_credentials materialize lookup_materia_nombre modal_value own_job
  submit_credentials fuel user custom_id fields =
      if not (custom_id == "credentials")
      then pure (some (message "Formulario desconocido."))
      else do
        old ← read_credentials user
        let username = modal_value "uade_username" fields
        let password = modal_value "uade_password" fields
        if username == "" || (password == "" || c.master_key == "")
            then pure (some (card warning "Faltan datos para guardar las credenciales."))
            else do
              secret ← lift (
                  c.seal user
                    (record { username = username; password = password; start_url = link_of old }))
              on_database (save_credentials user secret)
              activate c.prepare_account fuel user

  abbrev with_link : String → String → Option Credentials → Action Reply
  with_link user link none = fail (external "sql: no rows in result set")
  with_link user link (some found) = do
    secret ← lift (c.seal user (record found { start_url = link }))
    on_database (save_link user secret)
    call c.on_jobs_changed jobs_changed
    pure (card success "Link guardado. Reactivé tus búsquedas.")

  unfoldable pub submit_manual_start_url : String → List (String × String) → Action Reply
  unfolding read_credentials save_link modal_value
  submit_manual_start_url user fields =
      let link = trim_space (modal_value "start_url" fields) in
      if not (c.valid_start_url link)
      then pure (
          card warning
            "Ese link no parece válido. Tiene que ser el link completo de inscripcionespia.uade.edu.ar con param=.")
      else do found ← read_credentials user; with_link user link found

  -- the goroutine of submitCredentials, after PrepareAccount; none is the end of the fuel
  abbrev activated :
      String → Result Error (Option JobCreation) × Desk → Result Error (Option Unit) × Desk
  activated user (err e, d) =
      (call c.on_account_activated (account_activated user "") >> pure (some tt)) d
  activated user (panic, d) = (ok (some tt), d)
  activated user (ok none, d) = (ok none, d)
  activated user (ok (some creation), d) =
      (do
        call (creation.created && c.on_job_created) (job_created creation.id)
        call c.on_account_activated
            (account_activated user (if creation.created then creation.id else ""))
        pure (some tt))
        d

  abbrev prepared_account :
      ℕ → String → Result Error Unit × Desk → Result Error (Option Unit) × Desk
  prepared_account fuel user (ok _, d) = activated user (materialize c fuel user d)
  prepared_account fuel user (_, d) = (ok (some tt), d)

  unfoldable pub activate_credentials : ℕ → (String → Action Unit) → String → Action (Option Unit)
  unfolding materialize
  activate_credentials fuel prepare user d = prepared_account fuel user (prepare user d)
