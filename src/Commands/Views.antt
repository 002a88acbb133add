-- ===== src/Commands/Views.antt =====
-- The commands of internal/discordhttp that show what is stored: estado, pendingSearchLine,
-- autocomplete, adminStats, adminUserStats and adminIdentity; and component, the button of a message.
pub mod Choices
pub mod Counts
pub mod Button
pub mod Table
use Prim.Native.String.{◌++◌ as append}
use text.Mathlib.Text.{starts_with}
use uade_bot.Prelude.{
  ℕ, zero, suc, ◌+◌, String, ◌==◌, Bool, true, false, ◌&&◌, ◌||◌, not, Option, none, some, List, [],
  ◌∷◌, ◌++◌, if◌then◌else◌, length, join, map,
}
use uade_bot.Prelude.Int.{ℤ, pos, lez, eqz}
use uade_bot.Prelude.Decimal.{codes, decimal, itoa}
use uade_bot.Prelude.Runes.{rune_count, drop_runes}
use uade_bot.Prelude.Trim.{trim_space}
use uade_bot.Prelude.Exec.{Result, ok, err, panic, Exec, pure, fail, ◌>>=◌, ◌>>◌}
use uade_bot.Scheduler.Types.{Error, external}
use uade_bot.SqlStore.Statements.{
  UserRow, JobRow, PendingRow, LogRow, HistoryRow, Tables, Database, Sql, query, execute, statement,
  find_user, text_or,
}
use uade_bot.JobActions.{deleted, without, progress_without, history_without}
use uade_bot.Uade.Delta.{atoi}
use uade_bot.Commands.Desk.{
  Desk, Action, Reply, message, no_choices, choices, Config, JobFilters, on_database, call,
  jobs_changed,
}
use uade_bot.Commands.Microsoft.{MicrosoftSessions}
use uade_bot.Commands.Format.{
  format_job_choice_label, format_job_status_text, format_job_location, last_outcome_line,
  truncate_admin_list, truncate_choice_name, escape_discord_identity,
}
use uade_bot.Commands.Accounts.{lookup_materia_nombre, is_admin, pause_reason, reason_text}
use uade_bot.Commands.Dispatch.{Interaction, Handlers, string_option}

-- What these commands use besides: the names of users, the local time, the memory and the
-- swap of the process and the size of the file, as texts, the messages to a channel, and the
-- sessions of Microsoft with the hour of the clock.
pub record Surroundings : Type 0 where
  pub identity : Option (String → String → String)
  pub stamp : ℤ → String
  pub ram : String
  pub swap : String
  pub size : String
  pub send_channel : Option (String → String → Action Unit)
  pub sessions : Option MicrosoftSessions
  pub hour : ℤ → String

abbrev pub first : {A : Type 0} → ℕ → List A → List A
first zero xs = []
first (suc n) [] = []
first (suc n) (x ∷ xs) = x ∷ first n xs

abbrev pub kept : {A : Type 0} → (A → Bool) → List A → List A
kept p [] = []
kept p (x ∷ xs) = let rest = kept p xs in if p x then x ∷ rest else rest

-- the condition on the owner that the three queries share
abbrev pub is_shown : Bool → String → String → String → Bool
is_shown admin user filter owner =
    if not admin then owner == user else if not (filter == "") then owner == filter else true

-- ORDER BY recorded_at DESC, id DESC LIMIT 1
abbrev later_row : HistoryRow → Option HistoryRow → HistoryRow
later_row h none = h
later_row h (some k) = if lez h.recorded_at k.recorded_at then k else h

abbrev latest_of : String → List HistoryRow → Option HistoryRow
latest_of id [] = none
latest_of id (h ∷ hs) =
    let rest = latest_of id hs in if h.job_id == id then some (later_row h rest) else rest

-- an error of the query counts as no row
abbrev no_row :
    Result Error (Option HistoryRow) × Database → Result Error (Option HistoryRow) × Database
no_row (ok row, d) = (ok row, d)
no_row (err e, d) = (ok none, d)
no_row (panic, d) = (panic, d)

abbrev latest : String → String → Sql (Option HistoryRow)
latest code id =
    if code == "found"
    then (λ d. no_row (query (λ t. ok (latest_of id t.history)) d))
    else pure none

abbrev or_unlabelled : String → String
or_unlabelled label = if label == "" then "sin etiqueta" else label

-- `before ++ value`, and nothing for the empty value
abbrev with_before : String → String → String
with_before before value = if value == "" then "" else append before value

module _ (c : Config) (w : Surroundings) where
  abbrev resolved : Option (String → String → String) → String → String → String
  resolved none guild user = user
  resolved (some f) guild user = trim_space (f guild user)

  unfoldable pub admin_identity : String → String → String
  unfolding trim_space escape_discord_identity
  admin_identity guild user =
      let name = resolved w.identity guild user in
      if name == "" || name == user
      then escape_discord_identity user
      else append (escape_discord_identity name)
          (append " (" (append (escape_discord_identity user) ")"))

  abbrev last_poll : Option ℤ → String
  last_poll none = "sin sondeos"
  last_poll (some at) = w.stamp at

  abbrev admin_line : JobRow → JobFilters → String → String → String
  admin_line j f materia outcome =
      let label = or_unlabelled (text_or j.label) in
      join " · " (
        append "**#"
          (append j.id (append "** " (admin_identity (text_or j.guild_id) j.discord_user_id)))
        ∷ (if label == f.materia_codigo then materia else append label (append " - " materia))
        ∷ append f.turno (append " " (join "/" f.dias))
        ∷ format_job_status_text j.status none
        ∷ format_job_location j.guild_id j.channel_id
        ∷ outcome
        ∷ [])

  abbrev own_line : JobRow → Option String → JobFilters → String → String → String
  own_line j pause f materia outcome = join "\n" (
      append "**" (append (or_unlabelled (text_or j.label)) "**")
      ∷ append "**Materia:** " materia
      ∷ append "**Turno:** " f.turno
      ∷ append "**Dias:** " (join ", " f.dias)
      ∷ (elim f.sedes_excluidas as (λ _. List String) [
        | [] ↦ []
        | _ ∷ _ ↦ append "**Sedes excluidas:** " (join ", " f.sedes_excluidas) ∷ []
      ]
          ++ (append "**Server/Canal:** " (format_job_location j.guild_id j.channel_id)
              ∷ append "**Estado:** " (format_job_status_text j.status pause)
              ∷ append "**Ultimo sondeo:** " (last_poll j.last_polled_at)
              ∷ append "**Ultimo resultado:** " outcome
              ∷ [])))

  -- the loop over the rows that were read
  unfoldable pub job_lines : Bool → List (JobRow × Option String) → Sql (List String)
  unfolding lookup_materia_nombre last_outcome_line admin_identity format_job_status_text
      format_job_location join
  job_lines admin [] = pure []
  job_lines admin ((j, pause) ∷ rest) = do
    let f = c.decode j.filtros_json
    name ← lookup_materia_nombre c f.materia_codigo
    row ← latest (text_or j.last_outcome) j.id
    let materia = append f.materia_codigo (with_before " - " name)
    let outcome = last_outcome_line (text_or j.last_outcome) row
    lines ← job_lines admin rest
    pure (
        (if admin then admin_line j f materia outcome else own_line j pause f materia outcome)
        ∷ lines)

  abbrev pending_line : Bool → PendingRow → String
  pending_line admin p =
      if admin
      then append "⏳ " (
          append (admin_identity (text_or p.guild_id) p.discord_user_id)
            (append " · " (append (or_unlabelled p.label) " · pendiente de credenciales")))
      else append "⏳ **" (
          append (or_unlabelled p.label)
            "** — pendiente: todavía no completaste el modal de credenciales para esta búsqueda. Volvé a intentar con `/credenciales`.")

  -- ORDER BY created_at
  abbrev by_age : PendingRow → List PendingRow → List PendingRow
  by_age p [] = p ∷ []
  by_age p (q ∷ qs) = if lez p.created_at q.created_at then p ∷ q ∷ qs else q ∷ by_age p qs

  abbrev sorted : List PendingRow → List PendingRow
  sorted [] = []
  sorted (p ∷ ps) = by_age p (sorted ps)

  unfoldable pub pending_search_line : Bool → String → String → Sql String
  unfolding admin_identity join
  pending_search_line admin user filter = query (λ t. ok (
      join (if admin then "\n" else "\n\n") (
        map (pending_line admin)
          (sorted (kept (λ p. is_shown admin user filter p.discord_user_id) t.pending_searches)))))

  abbrev pause_of : Tables → String → Option String
  pause_of t user = elim (find_user user t.users) as (λ _. Option String) [
    | none ↦ none
    | some u ↦ u.pause_reason
  ]

  abbrev shown_rows : Bool → String → String → Tables → List (JobRow × Option String)
  shown_rows admin user filter t =
      map (λ j. (j, pause_of t j.discord_user_id))
        (first 25 (kept (λ j. is_shown admin user filter j.discord_user_id) t.jobs))

  abbrev estado_reply : Bool → List String → Reply
  estado_reply admin [] = message "No hay búsquedas para mostrar."
  estado_reply admin (line ∷ lines) =
      message (if admin then truncate_admin_list (line ∷ lines) else join "\n\n" (line ∷ lines))

  unfoldable pub estado : String → Bool → String → Action Reply
  unfolding job_lines pending_search_line find_user truncate_admin_list join
  estado user admin filter = on_database (do
    rows ← query (λ t. ok (shown_rows admin user filter t))
    lines ← job_lines admin rows
    pending ← pending_search_line admin user filter
    pure (estado_reply admin (lines ++ (if pending == "" then [] else pending ∷ []))))
