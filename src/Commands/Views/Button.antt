-- ===== src/Commands/Views/Button.antt =====
-- component: the button under a vacancy, which stops its own job.
use Prim.Native.String.{◌++◌ as append}
use text.Mathlib.Text.{starts_with}
use uade_bot.Prelude.{String, ◌==◌, ◌&&◌, not, Option, none, some, List, [], ◌∷◌, if◌then◌else◌}
use uade_bot.Prelude.Int.{ℤ}
use uade_bot.Prelude.Decimal.{codes, itoa}
use uade_bot.Prelude.Runes.{drop_runes}
use uade_bot.Prelude.Exec.{Result, ok, err, panic, pure, ◌>>=◌, ◌>>◌}
use uade_bot.Scheduler.Types.{Error}
use uade_bot.SqlStore.Statements.{JobRow, query, execute, text_or}
use uade_bot.JobActions.{deleted, without, progress_without, history_without}
use uade_bot.Uade.Delta.{atoi}
use uade_bot.Commands.Desk.{Desk, Action, Reply, message, Config, on_database, call, jobs_changed}
use uade_bot.Commands.Dispatch.{Interaction}
use uade_bot.Commands.Views.{Surroundings}

module _ (c : Config) (w : Surroundings) where
  -- parseDetenerButtonID
  abbrev button_id : String → Option ℤ
  button_id custom_id =
      if starts_with custom_id "detener_job:" then atoi (codes (drop_runes 12 custom_id)) else none

  abbrev own_row : String → String → List JobRow → Option JobRow
  own_row id user [] = none
  own_row id user (j ∷ js) =
      if j.id == id && j.discord_user_id == user then some j else own_row id user js

  -- the message to the job's channel, whose error is only logged
  abbrev echoed : Result Error Unit × Desk → Result Error Unit × Desk
  echoed (ok _, d) = (ok tt, d)
  echoed (err _, d) = (ok tt, d)
  echoed (panic, d) = (panic, d)

  abbrev echo : Option (String → String → Action Unit) → String → String → String → Action Unit
  echo none channel from text = pure tt
  echo (some send) channel from text =
      if not (channel == "") && not (channel == from)
      then (λ d. echoed (send channel text d))
      else pure tt

  abbrev stop_job : String → Interaction → Option JobRow → Action Reply
  stop_job id i none = pure (message "No encontré esa búsqueda o no te pertenece.")
  stop_job id i (some j) = do
    on_database (execute (deleted id))
    call c.on_jobs_changed jobs_changed
    echo w.send_channel (text_or j.channel_id) i.channel_id
        (append "Búsqueda #" (append id (append " (" (append (text_or j.label) "): detenida."))))
    pure (message (append "Búsqueda #" (append id ": detenida.")))

  abbrev pressed : String → Interaction → Option ℤ → Action Reply
  pressed user i none = pure (message "Boton desconocido.")
  pressed user i (some n) = do
    row ← on_database (query (λ t. ok (own_row (itoa n) user t.jobs)))
    stop_job (itoa n) i row

  unfoldable pub component : String → Interaction → Action Reply
  unfolding atoi itoa without progress_without history_without
  component user i = pressed user i (button_id i.custom_id)
