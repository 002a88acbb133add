-- ===== src/Commands/Dispatch.antt =====
-- DispatchInteraction of internal/discordhttp/commands.go: who may give which command.
use Prim.Native.String.{◌++◌ as append}
use text.Mathlib.Text.{starts_with}
use uade_bot.Prelude.{
  ℕ, String, ◌==◌, Bool, true, false, ◌&&◌, ◌||◌, not, Option, none, some, List, [], ◌∷◌,
  if◌then◌else◌, eqb,
}
use uade_bot.Prelude.Runes.{drop_runes}
use uade_bot.Prelude.Exec.{Result, ok, err, panic, Exec, pure, fail, ◌>>=◌, ◌>>◌}
use uade_bot.Scheduler.Types.{Error, external}
use uade_bot.Commands.Desk.{
  Desk, Action, Reply, card, modal, message, no_choices, info, danger, Config,
}
use uade_bot.Commands.Jobs.{mutate_job}
use uade_bot.Commands.Buscar.{SearchRequest, buscar}
use uade_bot.Commands.Accounts.{
  actor_blocked, is_admin, log_command, credenciales_modal, submit_credentials,
  submit_manual_start_url, admin_ban, admin_unban, superadmin_agregar, superadmin_eliminar,
}
pub mod Guards

-- Interaction: its type is 2 for a command, 3 for a component, 4 for autocomplete, 5 for a modal.
pub record Interaction : Type 0 where
  pub member_user : String
  pub user : String
  pub type_number : ℕ
  pub custom_id : String
  pub fields : List (String × String)
  pub name : String
  pub options : List (String × String)
  pub channel_id : String
  pub guild_id : String

-- The handlers of Commands.Views, and that of microsoft.go.
pub record Handlers : Type 0 where
  pub autocomplete : String → Interaction → Action Reply
  pub component : String → Interaction → Action Reply
  pub microsoft : String → String → Action Reply
  pub estado : String → Bool → String → Action Reply
  pub admin_stats : Action Reply
  pub admin_user_stats : String → String → Action Reply

unfoldable pub string_option : String → List (String × String) → String
string_option name [] = ""
string_option name ((option, value) ∷ rest) =
    if option == name then value else string_option name rest

abbrev pub unavailable_message : String
unavailable_message = "No pude procesar tu solicitud. Volvé a intentar más tarde."

abbrev pub actor : Interaction → String
actor i = if i.member_user == "" then i.user else i.member_user

abbrev pub is_super : String → Bool
is_super name = name == "superadmin-agregar" || name == "superadmin-eliminar"

abbrev request_of : Interaction → SearchRequest
request_of i = record {
  cod_materia = string_option "cod_materia" i.options;
  turno = string_option "turno" i.options;
  ofrecimiento = string_option "ofrecimiento" i.options;
  dias = string_option "dias" i.options;
  sedes_excluidas = string_option "sedes_excluidas" i.options;
  etiqueta = string_option "etiqueta" i.options;
}

abbrev pub answered : Action Reply → Action (Option Reply)
answered m = do reply ← m; pure (some reply)

-- `fuel` bounds the loop of materializePendingSearchResult, and none is its end.
module _ (c : Config) (h : Handlers) (fuel : ℕ) where
  -- the switch over the commands' names
  unfoldable pub command : String → Interaction → Action Reply
  unfolding string_option mutate_job buscar credenciales_modal admin_ban admin_unban
      superadmin_agregar superadmin_eliminar
  command user i =
      let target = string_option "usuario" i.options in
      let search = string_option "busqueda" i.options in
      if i.name == "microsoft"
      then h.microsoft user (string_option "accion" i.options)
      else if i.name == "credenciales"
      then credenciales_modal user
      else if i.name == "buscar"
      then buscar c user i.channel_id i.guild_id (request_of i)
      else if i.name == "estado"
      then h.estado user false ""
      else if i.name == "detener" || (i.name == "pausar" || i.name == "reanudar")
      then mutate_job c user i.name search false
      else if i.name == "admin-estado"
      then h.estado user true target
      else if i.name == "admin-detener" || (i.name == "admin-pausar" || i.name == "admin-reanudar")
      then mutate_job c user (drop_runes 6 i.name) search true
      else if i.name == "admin-stats"
      then h.admin_stats
      else if i.name == "admin-user-stats"
      then h.admin_user_stats i.guild_id target
      else if i.name == "admin-ban"
      then admin_ban target
      else if i.name == "admin-unban"
      then admin_unban target
      else if i.name == "superadmin-agregar"
      then superadmin_agregar c user target
      else if i.name == "superadmin-eliminar"
      then superadmin_eliminar c target
      else pure (message "Comando desconocido.")

  abbrev pub logged : String → Interaction → Action Reply
  logged user i = do log_command c user i.name i.guild_id; command user i

  -- the test of the admin- commands
  abbrev pub admin_only : String → Interaction → Action Reply
  admin_only user i = do
    admin ← is_admin c user
    if not admin
        then pure (
            message "Este comando requiere permisos de administrador (tabla admins o super-admin).")
        else logged user i

  abbrev pub checked : String → Interaction → Action Reply
  checked user i =
      if is_super i.name && (c.super_admin_id == "" || not (user == c.super_admin_id))
      then pure (message "Este comando requiere ser el super-admin configurado.")
      else if starts_with i.name "admin-"
      then admin_only user i
      else logged user i

  abbrev pub modal_submitted : String → Interaction → Action (Option Reply)
  modal_submitted user i =
      if i.custom_id == "sso_manual_link"
      then answered (submit_manual_start_url c user i.fields)
      else submit_credentials c fuel user i.custom_id i.fields

  -- the interaction of an actor who is not blocked
  unfoldable pub allowed : String → Interaction → Action (Option Reply)
  unfolding command is_admin log_command submit_manual_start_url submit_credentials
  allowed user i =
      if eqb i.type_number 5
      then modal_submitted user i
      else if eqb i.type_number 4
      then answered (h.autocomplete user i)
      else if eqb i.type_number 3
      then answered (h.component user i)
      else if not (eqb i.type_number 2)
      then fail (external "unsupported interaction type")
      else answered (checked user i)

  unfoldable pub dispatch : Interaction → Action (Option Reply)
  unfolding actor_blocked allowed
  dispatch i =
      let user = actor i in
      if user == "" then pure (some (card danger "No pude identificar tu cuenta.")) else do
        blocked ← actor_blocked user
        if blocked
            then pure
                (some (if eqb i.type_number 4 then no_choices else message unavailable_message))
            else allowed user i
