-- ===== src/Uade/Examples.antt =====
-- Small texts and rows, and the theorems at them.
use mathlib.Core.List.{Memᴰ}
use uade_bot.Prelude.{◌≡◌, ◌↔◌, ◌&&◌, not, eqb, true, false, some, [], ◌∷◌, arith}
use uade_bot.Prelude.{◌≤◌}
use uade_bot.Prelude.Bytes.{utf8}
use uade_bot.Prelude.Int.{pos}
use uade_bot.Uade.Delta.{Text, Parsed, panics, parse_delta, byte_length}
use uade_bot.Uade.Delta.Total.{is_panic, parse_delta-Ascii}
use uade_bot.Uade.Delta.Indices.{short_node, parse_delta-panics}
use uade_bot.Uade.Rows.{
  Vacancy, ParseResult, filter_vacancies, offered, some_offered, results_outcome, is_found,
  is_none_found, filter_vacancies-Memᴰ, results_outcome-code,
}

parse_delta-Ascii_example :
    (r : Parsed) × (parse_delta 2 (short_node 65) (pos 256) (pos 300) ≡ some r)
    × (is_panic r ≡ false)
parse_delta-Ascii_example =
    parse_delta-Ascii 2 (short_node 65) (pos 256) (pos 300)
      (omega arith, (omega arith, (omega arith, (omega arith, tt))))

fits : byte_length (short_node 233) ≤ 300
unfolding byte_length utf8
fits = omega arith

parse_delta-panics_example : parse_delta 0 (short_node 233) (pos 256) (pos 300) ≡ some panics
parse_delta-panics_example = parse_delta-panics 0 233 255 300 (omega arith) fits

abbrev monday : Text
monday = b'L' ∷ b'U' ∷ []

abbrev row : Vacancy
row = record {
  codigo = [];
  materia = [];
  turno = b'M' ∷ [];
  sede = b'X' ∷ [];
  horario = [];
  dias = b'M' ∷ b'A' ∷ b',' ∷ b'L' ∷ b'U' ∷ [];
  cupos = pos 2;
}

filter_vacancies-Memᴰ_example :
    Memᴰ row (filter_vacancies (row ∷ []) [] (monday ∷ []))
    ↔ (Memᴰ row (row ∷ []) × (offered [] (monday ∷ []) row ≡ true))
filter_vacancies-Memᴰ_example = filter_vacancies-Memᴰ row (row ∷ []) [] (monday ∷ [])

abbrev page : ParseResult
page = record { rows = row ∷ []; invalid_row_count = 0; results_container_detected = true }

results_outcome-code_example :
    (is_found (results_outcome page [] [] [] (monday ∷ [])).code ≡ (
      page.results_container_detected
      && (eqb page.invalid_row_count 0 && some_offered [] (monday ∷ []) page.rows)))
    × (is_none_found (results_outcome page [] [] [] (monday ∷ [])).code ≡ (
        page.results_container_detected
        && (eqb page.invalid_row_count 0 && not (some_offered [] (monday ∷ []) page.rows))))
results_outcome-code_example = results_outcome-code page [] [] [] (monday ∷ [])
