-- ===== src/Commands/Format.antt =====
-- internal/discordhttp/format.go and the text helpers of commands.go: the pure ones.
use Prim.Native.Char.{Char, code}
use Prim.Native.String.{◌++◌ as append}
use uade_bot.Prelude.{
  ℕ, zero, suc, ◌+◌, ◌-◌, String, ◌==◌, Bool, true, false, ◌&&◌, ◌||◌, not, Option, none, some,
  List, [], ◌∷◌, ◌++◌, if◌then◌else◌, ltb, leb, eqb, length, join, map, contains,
}
use uade_bot.Prelude.Bytes.{bytes}
use uade_bot.Prelude.Int.{ℤ, pos, eqz}
use uade_bot.Prelude.Decimal.{decimal, itoa}
use uade_bot.Prelude.Runes.{rune_count, take_runes}
use uade_bot.Prelude.Trim.{trim_space, split_commas}
use uade_bot.SqlStore.Statements.{HistoryRow, text_or, int_or}
use uade_bot.Commands.Desk.{JobFilters}
pub mod Sizes

-- strings.ToUpper, on the characters whose upper case is in ASCII; the others stay
abbrev upper_char : Char → Char
upper_char c =
    let n = code c in
    if eqb n b'a'
    then "A"
    else if eqb n b'e'
    then "E"
    else if eqb n b'i' || eqb n 0x131
    then "I"
    else if eqb n b'j'
    then "J"
    else if eqb n b'l'
    then "L"
    else if eqb n b'm'
    then "M"
    else if eqb n b's' || eqb n 0x17f
    then "S"
    else if eqb n b'u'
    then "U"
    else if eqb n b'v'
    then "V"
    else c

abbrev upper_days : String → String
upper_days String.[] = ""
upper_days (String.◌∷◌ c s) = String.◌∷◌ (upper_char c) (upper_days s)

abbrev non_empty : List String → List String
non_empty [] = []
non_empty (s ∷ ss) = let rest = non_empty ss in if s == "" then rest else s ∷ rest

-- `upper` is ToUpper as far as the days of validDias tell
unfoldable pub csv_values : String → Bool → List String
unfolding trim_space split_commas
csv_values value upper = non_empty (
    map (λ part. if upper then upper_days (trim_space part) else trim_space part)
      (split_commas value))

abbrev pub valid_dias : List String
valid_dias = "LU" ∷ "MA" ∷ "MI" ∷ "JU" ∷ "VI" ∷ "SA" ∷ []

abbrev kept_dias : List String → List String
kept_dias [] = []
kept_dias (dia ∷ dias) =
    let rest = kept_dias dias in if contains valid_dias dia then dia ∷ rest else rest

unfoldable pub filter_valid_dias : String → List String
unfolding csv_values
filter_valid_dias value = kept_dias (csv_values value true)

unfoldable pub format_job_choice_label : String → JobFilters → String → String
unfolding trim_space join
format_job_choice_label label filters materia_nombre =
    let code = filters.materia_codigo in
    let materia =
      if materia_nombre == ""
      then code
      else if code == ""
      then materia_nombre
      else append code (append " - " materia_nombre) in
    let turno_dias = trim_space (append filters.turno (append " " (join "/" filters.dias))) in
    let detail =
      if not (materia == "") && not (turno_dias == "")
      then append materia (append " · " turno_dias)
      else if not (materia == "")
      then materia
      else turno_dias in
    if detail == ""
    then (if label == "" then "sin datos" else label)
    else if label == ""
    then detail
    else append label (append ": " detail)

unfoldable pub format_job_status_text : String → Option String → String
format_job_status_text status pause_reason =
    let reason = text_or pause_reason in
    if reason == ""
    then (if status == "paused_by_user" then "pausada" else "activa")
    else append "pausada (" (append reason ")")

unfoldable pub format_job_location : Option String → Option String → String
format_job_location guild_id channel_id =
    let channel = text_or channel_id in
    if text_or guild_id == ""
    then (if channel == "" then "sin canal" else "DM")
    else if channel == ""
    then append "servidor " (text_or guild_id)
    else append "<#" (append channel ">")

abbrev found_line : Option HistoryRow → String
found_line none = "vacantes encontradas"
found_line (some h) =
    if elim h.vacancy_count as (λ _. Bool) [ none ↦ false | some n ↦ eqz n (pos 1) ]
    then append "vacante encontrada (" (append (itoa (int_or h.total_cupos)) " cupos)")
    else append "vacantes encontradas (" (
        append (itoa (int_or h.vacancy_count))
          (append " cursos, " (append (itoa (int_or h.total_cupos)) " cupos)")))

-- lastOutcomeLine, where `latest` is the job's last row of the history, none on an error too
unfoldable pub last_outcome_line : String → Option HistoryRow → String
unfolding itoa
last_outcome_line code latest =
    if code == ""
    then "sin resultado"
    else if code == "no_vacancies"
    then "sin vacantes"
    else if code == "invalid_credentials"
    then "credenciales invalidas"
    else if code == "search_failed"
    then "fallo la busqueda"
    else if code == "inscripciones_cerradas"
    then "inscripciones cerradas"
    else if code == "found"
    then found_line latest
    else code

-- the lines that fit, with how many there are: the text so far is `built`
unfoldable pub fitting : String → ℕ → List String → String × ℕ
unfolding bytes
fitting built shown [] = (built, shown)
fitting built shown (line ∷ lines) =
    let rest =
      fitting (if eqb (length (bytes built)) 0 then line else append built (append "\n" line))
        (suc shown) lines in
    if ltb 1850 (length (bytes built) + (length (bytes line) + 1)) then (built, shown) else rest

unfoldable pub truncate_admin_list : List String → String
unfolding fitting join decimal
truncate_admin_list lines =
    let joined = join "\n" lines in
    if leb (length (bytes joined)) 1900
    then joined
    else (let (text, shown) = fitting "" 0 lines in
        append text (
          append "\n_...y "
            (append (decimal (length lines - shown)) " mas (no entran en un solo mensaje)._")))

unfoldable pub filter_summary_block :
    String → String → String → String → String → List String → List String → String
unfolding join
filter_summary_block label code nombre turno ofrecimiento dias sedes =
    append "**Busqueda creada:** " (
      append label (
        append "\n**Materia:** `" (
          append code (
            append "`" (
              append (if nombre == "" then "" else append " - " nombre) (
                append "\n**Turno:** " (
                  append turno (
                    append "\n**Ofrecimiento:** " (
                      append ofrecimiento (
                        append "\n**Dias:** " (
                          append (join ", " dias) (elim sedes as (λ _. String) [
                            | [] ↦ ""
                            | _ ∷ _ ↦ append "\n**Sedes excluidas:** " (join ", " sedes)
                          ]))))))))))))

unfoldable pub truncate_choice_name : String → String
truncate_choice_name value =
    if leb (rune_count value) 100 then value else append (take_runes 99 value) "…"

-- the characters that escapeDiscordIdentity puts a backslash before
abbrev inert : ℕ → Bool
inert c =
    eqb c b'\\'
    || (eqb c b'*'
        || (eqb c b'_'
            || (eqb c b'~' || (eqb c b'`' || (eqb c b'|' || (eqb c b'>' || eqb c b'<'))))))

unfoldable pub escape_discord_identity : String → String
escape_discord_identity String.[] = ""
escape_discord_identity (String.◌∷◌ c s) =
    let rest = escape_discord_identity s in
    if inert (code c) then append "\\" (String.◌∷◌ c rest) else String.◌∷◌ c rest

-- the digits at the start, with what follows them
abbrev is_digit : ℕ → Bool
is_digit c = leb b'0' c && leb c b'9'

-- the states of `^\d+(?:\.\d+){2}$`: `n` groups are complete, and whether a digit has come
abbrev groups : ℕ → Bool → String → Bool
groups n begun String.[] = eqb n 2 && begun
groups n begun (String.◌∷◌ c s) =
    let within = groups n true s in
    let beyond = groups (suc n) false s in
    if is_digit (code c) then within else if eqb (code c) b'.' && begun then beyond else false

unfoldable pub matches_materia : String → Bool
matches_materia code = groups 0 false code
