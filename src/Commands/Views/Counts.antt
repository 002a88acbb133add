-- ===== src/Commands/Views/Counts.antt =====
-- adminStats and adminUserStats.
use Prim.Native.String.{◌++◌ as append}
use uade_bot.Prelude.{
  ℕ, ◌+◌, String, ◌==◌, Option, none, some, List, [], ◌∷◌, if◌then◌else◌, length, join,
}
use uade_bot.Prelude.Decimal.{decimal}
use uade_bot.Prelude.Exec.{Result, ok, err, panic, pure, ◌>>=◌}
use uade_bot.Scheduler.Types.{Error}
use uade_bot.SqlStore.Statements.{UserRow, Database, Sql, query}
use uade_bot.Commands.Desk.{Action, Reply, message, Config, on_database}
use uade_bot.Commands.Accounts.{pause_reason}
use uade_bot.Commands.Views.{Surroundings, kept, admin_identity}

module _ (c : Config) (w : Surroundings) where
  abbrev paused_users : List UserRow → ℕ
  paused_users [] = 0
  paused_users (u ∷ us) =
      let rest = paused_users us in
      elim u.pause_reason as (λ _. ℕ) [ none ↦ rest | some _ ↦ rest + 1 ]

  -- the number as Go prints it, on a line of its own
  abbrev counted : String → ℕ → String
  counted name n = append name (append ": " (decimal n))

  unfoldable pub admin_stats : Action Reply
  unfolding join decimal
  admin_stats = on_database (do
    users ← query (λ t. ok (length t.users))
    jobs ← query (λ t. ok (length t.jobs))
    paused ← query (λ t. ok (paused_users t.users))
    history ← query (λ t. ok (length t.history))
    pure (
        message (
          join "\n" (
            counted "Usuarios" users
            ∷ counted "Búsquedas" jobs
            ∷ counted "Cuentas pausadas" paused
            ∷ counted "Resultados registrados" history
            ∷ append "RAM del proceso: " w.ram
            ∷ append "Swap del proceso: " w.swap
            ∷ append "Tamaño de la base de datos: " w.size
            ∷ []))))

  -- an error leaves the count at 0
  abbrev or_zero : Result Error ℕ × Database → Result Error ℕ × Database
  or_zero (ok n, d) = (ok n, d)
  or_zero (err e, d) = (ok 0, d)
  or_zero (panic, d) = (panic, d)

  abbrev pause_line : Option String → String
  pause_line none = "no"
  pause_line (some reason) = reason

  abbrev user_stats : String → String → Option (Option String) → Sql Reply
  user_stats guild user none = pure (message "La cuenta no está registrada.")
  user_stats guild user (some reason) = do
    jobs ← λ d. or_zero (query (λ t. ok (length (kept (λ j. j.discord_user_id == user) t.jobs))) d)
    commands ← λ d.
        or_zero (query (λ t. ok (length (kept (λ l. l.discord_user_id == user) t.command_log))) d)
    pure (
        message (
          join "\n" (
            append "Usuario: " (admin_identity c w guild user)
            ∷ counted "Búsquedas" jobs
            ∷ counted "Comandos" commands
            ∷ append "Pausa: " (pause_line reason)
            ∷ [])))

  unfoldable pub admin_user_stats : String → String → Action Reply
  unfolding pause_reason admin_identity join decimal
  admin_user_stats guild user =
      if user == ""
      then pure (message "Seleccioná un usuario.")
      else on_database (pause_reason user >>= user_stats guild user)
