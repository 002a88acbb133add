-- ===== src/App/Messages.antt =====
-- The text of a notification and the messages that carry it: notificationText, notificationIdentity,
-- escapeDiscordText, notificationMessages and the nonce, of internal/app/runtime.go.
pub mod Escapes
use Prim.Native.Char.{code}
use Prim.Native.String.{◌++◌ as append}
use uade_bot.Prelude.{
  ℕ, zero, suc, ◌+◌, String, ◌==◌, Bool, true, false, ◌&&◌, ◌||◌, not, Option, none, some, List, [],
  ◌∷◌, ◌++◌, if◌then◌else◌, eqb, length, join, map,
}
use uade_bot.Prelude.Int.{ℤ, pos}
use uade_bot.Prelude.Bytes.{bytes, be64}
use uade_bot.Prelude.Decimal.{decimal, itoa}
use uade_bot.Prelude.Runes.{take_runes}
use uade_bot.Scheduler.Types.{Vacancy, Outcome, Job, Event}
use uade_bot.App.Split.{Split, contents, panics, unfinished, split}
use uade_bot.Prelude.Trim.{trim_space}

-- the characters that the replacer puts a backslash before
abbrev pub escaped : ℕ → Bool
escaped c =
    eqb c b'\\'
    || (eqb c b'*'
        || (eqb c b'_'
            || (eqb c b'~'
                || (eqb c b'`' || (eqb c b'|' || (eqb c b'>' || (eqb c b'[' || eqb c b']')))))))

unfoldable pub escape_discord_text : String → String
escape_discord_text String.[] = ""
escape_discord_text (String.◌∷◌ c s) =
    let rest = escape_discord_text s in
    if escaped (code c)
    then append "\\" (String.◌∷◌ c rest)
    else if eqb (code c) b'@'
    then append "@\u{200b}" rest
    else String.◌∷◌ c rest

-- the first name that is not blank
abbrev named : String → List Vacancy → String
named materia [] = materia
named materia (v ∷ vs) =
    let name = trim_space v.materia in
    let rest = named materia vs in
    if not (name == "") then append materia (append " - " (escape_discord_text name)) else rest

unfoldable pub notification_identity : Job → Outcome → String
unfolding trim_space escape_discord_text
notification_identity job outcome =
    let materia = named (escape_discord_text job.materia_codigo) outcome.vacancies in
    let label = trim_space job.label in
    if label == "" || label == job.materia_codigo
    then materia
    else append (escape_discord_text label) (append " - " materia)

abbrev line : String → String → String
line name value = append "**" (append name (append ":** " value))

abbrev vacancy_lines : Vacancy → List String
vacancy_lines v =
    ""
    ∷ line "Materia" (escape_discord_text v.materia)
    ∷ line "Turno" (escape_discord_text v.turno)
    ∷ line "Sede" (escape_discord_text v.sede)
    ∷ line "Horario" (escape_discord_text v.horario)
    ∷ line "Dias" (join ", " (map escape_discord_text v.dias))
    ∷ append "**" (append (itoa v.cupos) " cupos**")
    ∷ []

abbrev all_lines : List Vacancy → List String
all_lines [] = []
all_lines (v ∷ vs) = vacancy_lines v ++ all_lines vs

abbrev pause_text : String → String
pause_text reason =
    if reason == "needs_credentials"
    then "Pausé tus búsquedas: UADE rechazó las credenciales. Actualizalas con /credenciales."
    else if reason == "needs_new_start_url"
    then "Pausé tus búsquedas: no pude renovar automáticamente tu link de inscripción (puede requerir verificación adicional de tu cuenta). Volvé a correr /credenciales para reintentarlo."
    else if reason == "inscripciones_cerradas"
    then "UADE no tiene inscripciones abiertas en este momento, así que puse tus búsquedas en espera. Quedan guardadas y las reactivo sola cuando el período vuelva a abrir: te aviso ahí mismo."
    else "Pausé temporalmente tus búsquedas de UADE."

unfoldable pub notification_text : Event → String
unfolding notification_identity join itoa
notification_text event =
    if event.kind == "account_resumed"
    then "Las inscripciones de UADE volvieron a abrir. Tus búsquedas ya están corriendo de nuevo, no tenés que hacer nada."
    else if event.kind == "account_pause"
    then pause_text event.reason
    else join "\n" (
        append "Se encontro una vacante para **"
          (append (notification_identity event.job event.outcome) "**.")
        ∷ all_lines event.outcome.vacancies)

-- the cards of internal/discordrest/card.go
pub data Card : Type 0 where
  card_vacancy card_paused card_resumed card_action card_info : Card

unfoldable pub event_card : Event → Card
event_card event =
    if event.kind == "vacancy"
    then card_vacancy
    else if event.kind == "account_resumed"
    then card_resumed
    else if event.kind == "account_pause"
    then (if event.reason == "inscripciones_cerradas" then card_paused else card_action)
    else card_info

-- VacancyActionRow: the button that stops the job of this id
pub data Component : Type 0 where
  vacancy_action_row : String → Component

pub record Message : Type 0 where
  pub content : String
  pub components : List Component
  pub fragment_index : ℕ
  pub fragment_count : ℕ
  pub fragment_fingerprint : String
  pub nonce : String

-- writeNotificationIdentityBytes and writeNotificationIdentityString
abbrev identity_bytes : List ℕ → List ℕ
identity_bytes value = be64 (length value) ++ value

abbrev identity_string : String → List ℕ
identity_string value = identity_bytes (bytes value)

abbrev identity_components : (Component → List ℕ) → List Component → List ℕ
identity_components encode [] = []
identity_components encode (c ∷ cs) = identity_bytes (encode c) ++ identity_components encode cs

-- `digest` is sha256 in hexadecimal and `encode` the JSON of a component, both of libraries.
module _ (digest : List ℕ → String) (encode : Component → List ℕ) where
  unfoldable pub fragment_nonce : Event → String → String → ℕ → ℕ → String → List Component → String
  unfolding bytes be64 decimal
  fragment_nonce event route target index count content components = append "uade-" (
      take_runes 20 (
        digest (
          identity_string "uade-notification-fragment-nonce-v2"
          ++ (identity_string event.kind
              ++ (identity_string event.delivery_key
                  ++ (identity_string event.job.id
                      ++ (identity_string route
                          ++ (identity_string target
                              ++ (identity_string (decimal index)
                                  ++ (identity_string (decimal count)
                                      ++ (identity_string content
                                          ++ (identity_string (decimal (length components))
                                              ++ identity_components encode components))))))))))))

  abbrev pub mention : Event → String → String
  mention event route =
      if route == "channel" then append "<@" (append event.job.account ">\n") else ""

  abbrev message_of : Event → String → ℕ → ℕ → String → Message
  message_of event route count index content =
      let target = if route == "channel" then event.job.channel else event.job.account in
      let components = if eqb (index + 1) count then vacancy_action_row event.job.id ∷ [] else [] in
      record {
        content = content;
        components = components;
        fragment_index = index;
        fragment_count = count;
        fragment_fingerprint = digest (bytes content);
        nonce = fragment_nonce event route target index count content components;
      }

  abbrev messages_from : Event → String → ℕ → ℕ → List String → List Message
  messages_from event route count index [] = []
  messages_from event route count index (content ∷ rest) =
      message_of event route count index content ∷ messages_from event route count (suc index) rest

  abbrev messages_of : Event → String → Split → Option (List Message)
  messages_of event route (contents cs) = some (messages_from event route (length cs) 0 cs)
  messages_of event route _ = none

  -- notificationMessages, where none is its panic
  unfoldable pub notification_messages : Event → String → Option (List Message)
  unfolding fragment_nonce split
  notification_messages event route =
      messages_of event route (split (notification_text event) (mention event route))
