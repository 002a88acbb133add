-- ===== src/Uade/Rows.antt =====
-- internal/uade/parse.go, outcome.go and search.go: which rows of the results count, and what a
-- search answers for them.
use uade_bot.Prelude.{
  ℕ, ◌≡◌, refl, sym, String, Bool, true, false, not, ◌&&◌, ◌||◌, List, [], ◌∷◌, if◌then◌else◌, eqb,
  arith, Bool-cases, inl, inr, ◌↔◌,
}
use mathlib.Core.List.{Memᴰ}
use uade_bot.Prelude.{subst}
use uade_bot.Prelude.Int.{negsuc}
use uade_bot.Prelude.Int.{ℤ, pos, lez, ltz}
use uade_bot.Uade.Delta.{Text, same}

pub data Code : Type 0 where
  found no_vacancies auth_error transient_error rate_limited stale_url : Code

pub record Vacancy : Type 0 where
  pub codigo : Text
  pub materia : Text
  pub turno : Text
  pub sede : Text
  pub horario : Text
  pub dias : Text
  pub cupos : ℤ

pub record Outcome : Type 0 where
  pub code : Code
  pub vacancies : List Vacancy
  pub materia_nombre : Text
  pub reason : String

-- strings.Split(text, ",")
abbrev onto_first : ℕ → List Text → List Text
onto_first c [] = (c ∷ []) ∷ []
onto_first c (t ∷ ts) = (c ∷ t) ∷ ts

unfoldable pub split : Text → List Text
split [] = [] ∷ []
split (c ∷ cs) = let rest = split cs in if eqb c b',' then [] ∷ rest else onto_first c rest

-- the maps `excluded` and `wanted` of true values
unfoldable pub listed : Text → List Text → Bool
unfolding same
listed t [] = false
listed t (s ∷ ss) = same s t || listed t ss

-- the loop that sets `overlap`
unfoldable pub overlaps : List Text → List Text → Bool
unfolding listed
overlaps [] wanted = false
overlaps (d ∷ ds) wanted = listed d wanted || overlaps ds wanted

-- FilterVacancies
unfoldable pub filter_vacancies : List Vacancy → List Text → List Text → List Vacancy
unfolding listed overlaps split
filter_vacancies [] excluded wanted = []
filter_vacancies (row ∷ rows) excluded wanted =
    let rest = filter_vacancies rows excluded wanted in
    if listed row.sede excluded || lez row.cupos (pos 0)
    then rest
    else if overlaps (split row.dias) wanted
    then row ∷ rest
    else rest

abbrev pub plain : Code → String → Outcome
plain code reason = record { code = code; vacancies = []; materia_nombre = []; reason = reason }

abbrev pub is_empty : List Vacancy → Bool
is_empty [] = true
is_empty (_ ∷ _) = false

-- Classify
unfoldable pub classify : Bool → Bool → Bool → List Vacancy → Outcome
classify search_verified auth_failed transport_failed vacancies =
    if auth_failed
    then plain auth_error "credentials rejected"
    else if transport_failed || not search_verified
    then plain transient_error "search response not verified"
    else if is_empty vacancies
    then plain no_vacancies ""
    else record (plain found "") { vacancies = vacancies }

-- What `errors.Is` finds a failure of the transport to be.
pub data Transport : Type 0 where
  auth rate_limit other : Transport

-- transportOutcome
unfoldable pub transport_outcome : Transport → Outcome
transport_outcome auth = plain auth_error ""
transport_outcome rate_limit = plain rate_limited ""
transport_outcome other = plain transient_error "transport failure"

-- ParseResult, without the count of matched rows, which nothing reads
pub record ParseResult : Type 0 where
  pub rows : List Vacancy
  pub invalid_row_count : ℕ
  pub results_container_detected : Bool

unfoldable pub labelled : Text → Text → List Vacancy → List Vacancy
labelled codigo materia [] = []
labelled codigo materia (v ∷ vs) =
    record v { codigo = codigo; materia = materia } ∷ labelled codigo materia vs

-- the end of Search, for a verified page whose rows are parsed
unfoldable pub results_outcome : ParseResult → Text → Text → List Text → List Text → Outcome
unfolding filter_vacancies labelled classify
results_outcome parsed codigo nombre excluded dias =
    if not parsed.results_container_detected || not (eqb parsed.invalid_row_count 0)
    then plain transient_error "results response invalid"
    else record (classify true false false
        (labelled codigo nombre (filter_vacancies parsed.rows excluded dias))) {
          materia_nombre = nombre;
        }

-- whether a row is offered: places left, a campus that is not excluded and a day that is asked for
abbrev pub offered : List Text → List Text → Vacancy → Bool
offered excluded wanted v =
    not (listed v.sede excluded) && (ltz (pos 0) v.cupos && overlaps (split v.dias) wanted)

unfoldable pub some_offered : List Text → List Text → List Vacancy → Bool
some_offered excluded wanted [] = false
some_offered excluded wanted (v ∷ vs) = offered excluded wanted v || some_offered excluded wanted vs

abbrev pub is_found : Code → Bool
is_found found = true
is_found _ = false

abbrev pub is_none_found : Code → Bool
is_none_found no_vacancies = true
is_none_found _ = false

admits :
    (excluded wanted : List Text) (v : Vacancy) (rest : List Vacancy)
    → (if listed v.sede excluded || lez v.cupos (pos 0)
        then rest
        else if overlaps (split v.dias) wanted
        then v ∷ rest
        else rest)
      ≡ (if offered excluded wanted v then v ∷ rest else rest)
admits excluded wanted v rest = at v.cupos
  where
    at :
        (c : ℤ)
        → (if listed v.sede excluded || lez c (pos 0)
            then rest
            else if overlaps (split v.dias) wanted
            then v ∷ rest
            else rest)
          ≡ (if not (listed v.sede excluded) && (ltz (pos 0) c && overlaps (split v.dias) wanted)
              then v ∷ rest
              else rest)
    at (pos n) = ground arith
    at (negsuc n) = ground arith

filter_vacancies-step :
    (v : Vacancy) (vs : List Vacancy) (excluded wanted : List Text)
    → filter_vacancies (v ∷ vs) excluded wanted ≡ (
        if offered excluded wanted v
        then v ∷ filter_vacancies vs excluded wanted
        else filter_vacancies vs excluded wanted)
unfolding filter_vacancies
filter_vacancies-step v vs excluded wanted =
    admits excluded wanted v (filter_vacancies vs excluded wanted)

kept-Memᴰ :
    (v : Vacancy) (rows : List Vacancy) (excluded wanted : List Text)
    → Memᴰ v (filter_vacancies rows excluded wanted)
    → Memᴰ v rows × (offered excluded wanted v ≡ true)
unfolding filter_vacancies
kept-Memᴰ v [] excluded wanted m = elim m [ ]
kept-Memᴰ v (row ∷ rows) excluded wanted m = elim (Bool-cases (offered excluded wanted row)) [
  | inl on ↦
      first on (λ t. kept-Memᴰ v rows excluded wanted t)
        (rw (filter_vacancies-step row rows excluded wanted, on) at m)
  | inr off ↦
      let (a, b) =
        kept-Memᴰ v rows excluded wanted
          (rw (filter_vacancies-step row rows excluded wanted, off) at m) in
      (Memᴰ.tail a, b)
]
  where
    first :
        offered excluded wanted row ≡ true
        → (Memᴰ v (filter_vacancies rows excluded wanted)
            → Memᴰ v rows × (offered excluded wanted v ≡ true))
        → Memᴰ v (row ∷ filter_vacancies rows excluded wanted)
        → Memᴰ v (row ∷ rows) × (offered excluded wanted v ≡ true)
    first on rest (Memᴰ.head e) =
        (Memᴰ.head e, subst (λ x. offered excluded wanted x ≡ true) (sym e) on)
    first on rest (Memᴰ.tail t) = let (a, b) = rest t in (Memᴰ.tail a, b)

offered-Memᴰ :
    (v : Vacancy) (rows : List Vacancy) (excluded wanted : List Text)
    → Memᴰ v rows
    → offered excluded wanted v ≡ true
    → Memᴰ v (filter_vacancies rows excluded wanted)
offered-Memᴰ v [] excluded wanted m o = elim m [ ]
offered-Memᴰ v (row ∷ rows) excluded wanted (Memᴰ.head e) o =
    let on : offered excluded wanted row ≡ true =
      subst (λ x. offered excluded wanted x ≡ true) e o in
    rw (filter_vacancies-step row rows excluded wanted, on) (Memᴰ.head e)
offered-Memᴰ v (row ∷ rows) excluded wanted (Memᴰ.tail t) o =
    elim (Bool-cases (offered excluded wanted row)) [
      | inl on ↦
          rw (filter_vacancies-step row rows excluded wanted, on)
            (Memᴰ.tail (offered-Memᴰ v rows excluded wanted t o))
      | inr off ↦
          rw (filter_vacancies-step row rows excluded wanted, off)
            (offered-Memᴰ v rows excluded wanted t o)
    ]

-- FilterVacancies keeps exactly the rows that are offered: with places left, at a campus that is not
-- excluded, on a day that is asked for.
pub filter_vacancies-Memᴰ :
    (v : Vacancy) (rows : List Vacancy) (excluded wanted : List Text)
    → Memᴰ v (filter_vacancies rows excluded wanted)
      ↔ (Memᴰ v rows × (offered excluded wanted v ≡ true))
filter_vacancies-Memᴰ v rows excluded wanted =
    ((λ m. kept-Memᴰ v rows excluded wanted m), (λ (m, o). offered-Memᴰ v rows excluded wanted m o))

none_offered :
    (codigo nombre : Text) (rows : List Vacancy) (excluded wanted : List Text)
    → is_empty (labelled codigo nombre (filter_vacancies rows excluded wanted))
      ≡ not (some_offered excluded wanted rows)
unfolding filter_vacancies labelled some_offered
none_offered codigo nombre [] excluded wanted = refl
none_offered codigo nombre (v ∷ vs) excluded wanted =
    elim (Bool-cases (offered excluded wanted v)) [
      | inl on ↦ rw (filter_vacancies-step v vs excluded wanted, on, labelled) refl
      | inr off ↦
          rw (filter_vacancies-step v vs excluded wanted, off)
            (none_offered codigo nombre vs excluded wanted)
    ]

-- The end of a search answers `found` exactly for a page with the table of results and no row that
-- could not be read, among whose rows one is offered, and `no_vacancies` exactly for such a page
-- without an offered row: nothing that is doubtful counts as a search without a result.
pub results_outcome-code :
    (parsed : ParseResult) (codigo nombre : Text) (excluded dias : List Text)
    → (is_found (results_outcome parsed codigo nombre excluded dias).code ≡ (
        parsed.results_container_detected
        && (eqb parsed.invalid_row_count 0 && some_offered excluded dias parsed.rows)))
      × (is_none_found (results_outcome parsed codigo nombre excluded dias).code ≡ (
          parsed.results_container_detected
          && (eqb parsed.invalid_row_count 0 && not (some_offered excluded dias parsed.rows))))
unfolding results_outcome classify
results_outcome-code parsed codigo nombre excluded dias = (
  ground (arith, none_offered codigo nombre parsed.rows excluded dias),
  ground (arith, none_offered codigo nombre parsed.rows excluded dias),
)
