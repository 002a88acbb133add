-- ===== src/Dashboard/Labels.antt =====
-- The codes that are shown, with their labels and tones. JSON is the standard library's: what it
-- decodes is given.
use uade_bot.Prelude.{String, ◌==◌, ◌||◌, Option, none, some, List, [], ◌∷◌, if◌then◌else◌, length}
use uade_bot.Prelude.Int.{ℤ, pos, ◌+ℤ◌, ltz}

-- `code` is nil for an outcome that there is none of.
pub record Status : Type 0 where
  pub code : String
  pub label : String
  pub tone : String

pub record Outcome : Type 0 where
  pub code : Option String
  pub label : String
  pub tone : String
  pub vacancy_count : Option ℤ
  pub total_cupos : Option ℤ

pub record PauseCopy : Type 0 where
  pub code : String
  pub account : String
  pub breakdown : String

abbrev copy : String → String → String → PauseCopy
copy code account breakdown = record { code = code; account = account; breakdown = breakdown }

unfoldable pub safe_pause : String → PauseCopy
safe_pause v =
    if v == "needs_credentials"
    then copy v "Pausada: requiere credenciales" "Requiere credenciales"
    else if v == "needs_new_start_url"
    then copy v "Pausada: requiere un nuevo link" "Requiere un nuevo link"
    else if v == "rate_limited"
    then copy v "Pausada temporalmente por límite de UADE" "Límite de UADE"
    else if v == "inscripciones_cerradas"
    then copy v "En espera: UADE no tiene inscripciones abiertas" "Inscripciones cerradas"
    else copy "unknown" "Pausada: revisar el estado" "Revisar el estado"

abbrev status : String → String → String → Status
status code label tone = record { code = code; label = label; tone = tone }

unfoldable pub account_status : String → Status
unfolding safe_pause
account_status p =
    if p == ""
    then status "active" "Activa" "healthy"
    else status (safe_pause p).code (safe_pause p).account "warning"

unfoldable pub job_status : String → String → Status
unfolding account_status
job_status s p =
    if p == ""
    then if s == "active"
      then status s "Activa" "healthy"
      else if s == "paused_by_user"
      then status s "Pausada manualmente" "warning"
      else status "unknown" "Revisar el estado" "warning"
    else account_status p

abbrev shown : String → String → String → Option ℤ → Option ℤ → Outcome
shown code label tone count total = record {
  code = some code;
  label = label;
  tone = tone;
  vacancy_count = count;
  total_cupos = total;
}

abbrev pub unknown_outcome : Outcome
unknown_outcome = shown "unknown" "Resultado no reconocido" "warning" none none

unfoldable pub outcome_code : String → Option ℤ → Option ℤ → Outcome
outcome_code code count total =
    if code == "no_vacancies"
    then shown code "Sin vacantes" "neutral" count total
    else if code == "search_failed"
    then shown code "Búsqueda fallida" "failure" count total
    else if code == "invalid_credentials"
    then shown code "Credenciales inválidas" "failure" count total
    else if code == "rate_limited"
    then shown code "Limitada por UADE" "warning" count total
    else if code == "stale_start_url" || code == "needs_new_start_url"
    then shown code "Link de inscripción vencido" "warning" count total
    else if code == "inscripciones_cerradas"
    then shown code "Inscripciones cerradas" "neutral" count total
    else if code == "found"
    then shown code "Vacantes encontradas" "healthy" count total
    else unknown_outcome

-- what json.Unmarshal makes of the text of an outcome: the code, and each vacancy's places
abbrev pub Decoded : Type 0
Decoded = Option (String × List ℤ)

-- the loop over the vacancies; `none` is a negative number of places
unfoldable pub sum_cupos : ℤ → List ℤ → Option ℤ
sum_cupos total [] = some total
sum_cupos total (c ∷ cs) =
    let rest = sum_cupos (total +ℤ c) cs in if ltz c (pos 0) then none else rest

abbrev found_outcome : List ℤ → Option ℤ → Outcome
found_outcome vs none = unknown_outcome
found_outcome vs (some total) =
    shown "found" "Vacantes encontradas" "healthy" (some (pos (length vs))) (some total)

abbrev decoded_outcome : Decoded → Outcome
decoded_outcome none = unknown_outcome
decoded_outcome (some (code, [])) =
    if code == "found" || code == "vacancies_found"
    then unknown_outcome
    else outcome_code code none none
decoded_outcome (some (code, v ∷ vs)) =
    if code == "found" || code == "vacancies_found"
    then found_outcome (v ∷ vs) (sum_cupos (pos 0) (v ∷ vs))
    else outcome_code code none none

-- safeOutcome, for a decoder of JSON
unfoldable pub safe_outcome : (String → Decoded) → String → Outcome
unfolding outcome_code sum_cupos
safe_outcome unmarshal raw =
    if raw == ""
    then (record {
      code = none;
      label = "Sin sondeos todavía";
      tone = "neutral";
      vacancy_count = none;
      total_cupos = none;
    })
    else decoded_outcome (unmarshal raw)
