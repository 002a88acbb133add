-- ===== src/Commands/Views/Choices.antt =====
-- autocomplete: the choices that Discord offers while a command is typed.
use Prim.Native.String.{◌++◌ as append}
use text.Mathlib.Text.{starts_with}
use uade_bot.Prelude.{String, ◌==◌, Bool, true, false, ◌||◌, not, List, [], ◌∷◌, if◌then◌else◌, map}
use uade_bot.Prelude.Exec.{ok, pure, ◌>>=◌}
use uade_bot.SqlStore.Statements.{UserRow, JobRow, Tables, Sql, query, text_or}
use uade_bot.Commands.Desk.{Action, Reply, no_choices, choices, Config, on_database}
use uade_bot.Commands.Format.{format_job_choice_label, truncate_choice_name}
use uade_bot.Commands.Accounts.{lookup_materia_nombre, is_admin}
use uade_bot.Commands.Dispatch.{Interaction}
use uade_bot.Prelude.Sort.{sort}
use uade_bot.Commands.Views.{Surroundings, first, kept, is_shown, admin_identity}

module _ (c : Config) (w : Surroundings) where
  -- ORDER BY id DESC LIMIT 25
  abbrev latest_jobs : Bool → String → Tables → List JobRow
  latest_jobs admin user t =
      first 25 (reversed (kept (λ j. is_shown admin user "" j.discord_user_id) t.jobs) [])
    where
      reversed : List JobRow → List JobRow → List JobRow
      reversed [] done = done
      reversed (j ∷ js) done = reversed js (j ∷ done)

  unfoldable pub job_choices : Bool → List JobRow → Sql (List (String × String))
  unfolding lookup_materia_nombre format_job_choice_label admin_identity truncate_choice_name
  job_choices admin [] = pure []
  job_choices admin (j ∷ js) = do
    let f = c.decode j.filtros_json
    name ← lookup_materia_nombre c f.materia_codigo
    let detail = format_job_choice_label (text_or j.label) f name
    rest ← job_choices admin js
    pure (
        (
          truncate_choice_name (
              if admin
              then append "#" (
                  append j.id (
                    append " " (
                      append detail (
                        append " · " (admin_identity c w (text_or j.guild_id) j.discord_user_id)))))
              else detail),
          j.id,
        )
        ∷ rest)

  abbrev has_option : String → List (String × String) → Bool
  has_option name [] = false
  has_option name ((option, _) ∷ rest) = option == name || has_option name rest

  abbrev accounts : List UserRow → List String
  accounts [] = []
  accounts (u ∷ us) = u.discord_user_id ∷ accounts us

  abbrev user_choices : String → Action Reply
  user_choices guild = do
    users ← on_database (query (λ t. ok (first 25 (sort (accounts t.users)))))
    pure
        (choices (map (λ user. (truncate_choice_name (admin_identity c w guild user), user)) users))

  abbrev suggest : Bool → String → Interaction → Action Reply
  suggest admin user i = if has_option "usuario" i.options then user_choices i.guild_id else do
    found ← on_database (query (λ t. ok (latest_jobs admin user t)) >>= job_choices admin)
    pure (choices found)

  unfoldable pub autocomplete : String → Interaction → Action Reply
  unfolding is_admin job_choices admin_identity truncate_choice_name
  autocomplete user i =
      if not (starts_with i.name "admin-")
      then suggest false user i
      else do admin ← is_admin c user; if not admin then pure no_choices else suggest true user i
