-- ===== src/Commands/Buscar/Limit.antt =====
-- A user has at most ten searches that are active or paused, as far as buscar makes them.
use uade_bot.Commands.Buscar.{filter_valid_dias}
use uade_bot.SqlStore.Statements.{execute}
use uade_bot.Commands.Buscar.{matches_materia}
use uade_bot.Commands.Buscar.{on_days}
use uade_bot.Commands.Buscar.{save_search}
use uade_bot.SqlStore.Statements.{MateriaRow}
use uade_bot.Commands.Buscar.{insert_after}
use uade_bot.Commands.Buscar.{query}
use uade_bot.Prelude.{
  ℕ, ◌+◌, ◌≤◌, ◌≡◌, sym, subst, String, ◌==◌, false, not, Option, none, some, List, [], ◌∷◌, ◌++◌,
  leb, arith, Bool-cases, inl, inr,
}
use uade_bot.Prelude.Trim.{trim_space}
use uade_bot.Prelude.Exec.{Result, ok, err, panic}
use uade_bot.Scheduler.Types.{Error}
use uade_bot.SqlStore.Statements.{JobRow, Database, Sql, Tables, text_or}
use uade_bot.Commands.Desk.{
  Desk, Action, Config, on_database, Inserted, skipped, rejected, created, nullable,
}
use uade_bot.Commands.Desk.Frames.{
  Stays, Stays-bind, query-keeps, query-bind, execute-ends, run-ends, insert_after-ends, tables_of,
}
use uade_bot.Commands.Jobs.{existing, find_existing_job}
use uade_bot.Commands.Searches.{
  resolve_materia_name, insertion, insert_job, new_job, name_materia, found_or_none, asked, cleaned,
  from_cache, save_pending_search, has_user,
}
use uade_bot.Commands.Buscar.{
  SearchRequest, current_jobs, create_search, buscar, named, after_insert,
}

-- how many searches of a user count, and how many that is at most
abbrev pub searches : String → Tables → ℕ
searches user t = current_jobs user t.jobs

abbrev pub AtMost : String → ℕ → Tables → Type 0
AtMost user n t = searches user t ≤ n

current_jobs-append :
    (user : String) (js : List JobRow) (j : JobRow)
    → current_jobs user (js ++ (j ∷ [])) ≤ current_jobs user js + 1
unfolding current_jobs
current_jobs-append user [] j = ground arith
current_jobs-append user (k ∷ js) j = ground (arith, current_jobs-append user js j)

insertion-grows :
    (user filters code label owner : String) (channel guild : Option String) (n : ℕ) (t : Tables)
    → AtMost user n t
    → AtMost user (n + 1) (insertion owner filters code channel guild label t).1
unfolding insertion
insertion-grows user filters code label owner channel guild n t h =
    elim (Bool-cases (not (existing owner (text_or guild) code t.jobs == ""))) [
      | inl known ↦ rw known (omega arith)
      | inr fresh ↦ elim (Bool-cases (not (has_user owner t))) [
        | inl nobody ↦ rw (fresh, nobody) (omega arith)
        | inr stored ↦
            rw (fresh, stored)
              (omega (
                arith,
                current_jobs-append user t.jobs
                    (new_job t.next_job owner filters code channel guild label),
              ))
      ]
    ]

insert_job-grows :
    (user filters code label owner : String) (channel guild : Option String) (n : ℕ) (d : Database)
    → AtMost user n d.tables
    → AtMost user (n + 1) (insert_job owner filters code channel guild label d).1.tables
unfolding insert_job
insert_job-grows user filters code label owner channel guild n d h =
    run-ends (AtMost user (n + 1)) (insertion owner filters code channel guild label) d.tables
      d.faults (omega arith)
      (insertion-grows user filters code label owner channel guild n d.tables h)

module _ (c : Config) (user channel guild : String) (r : SearchRequest) where
  abbrev DeskAtMost : ℕ → Desk → Type 0
  DeskAtMost n d = AtMost user n (tables_of d)

  name_materia-keeps :
      (code name : String) (n : ℕ) (d : Database)
      → AtMost user n d.tables
      → AtMost user n (name_materia c code name d).1.tables
  name_materia-keeps code name n d h = elim (Bool-cases (name == "")) [
    | inl none_given ↦ rw none_given h
    | inr given ↦ rw given (execute-ends (AtMost user n) _ d h h)
  ]

  caught-keeps :
      (q : Sql String) (P : Tables → Type 0) (d : Database)
      → P (q d).1.tables
      → P (found_or_none (q d)).1.tables
  caught-keeps q P d h = ends (q d) h
    where
      ends : (x : Result Error String × Database) → P x.1.tables → P (found_or_none x).1.tables
      ends (ok id, d) h = h
      ends (err e, d) h = h
      ends (panic, d) h = h

  after_insert-keeps :
      (name : String) (inserted : Inserted) (n : ℕ)
      → Stays (DeskAtMost n) (after_insert c user channel guild r name inserted)
  unfolding find_existing_job
  after_insert-keeps name skipped n d h = h
  after_insert-keeps name (created id) n d h = elim (Bool-cases c.on_job_created) [
    | inl told ↦ rw told h
    | inr untold ↦ rw untold h
  ]
  after_insert-keeps name (rejected e) n d h =
      Stays-bind (DeskAtMost n) (DeskAtMost n)
        (on_database
          (λ d'. found_or_none (find_existing_job user guild (trim_space r.cod_materia) d')))
        _ d (λ s' k. k)
        (caught-keeps (find_existing_job user guild (trim_space r.cod_materia)) (AtMost user n)
          d.database (query-keeps (AtMost user n) _ d.database h))
        (λ id d' k. elim (Bool-cases (id == "")) [
          | inl none_there ↦ rw none_there k
          | inr there ↦ rw there k
        ])

  -- the resolver creates no search of the user
  abbrev pub Quiet : Option (String → String → Action String) → Type 0
  Quiet none = Unit
  Quiet (some resolve) = (code : String) (n : ℕ) → Stays (DeskAtMost n) (resolve user code)

  asked-keeps :
      (o : Option (String → String → Action String)) (code : String) (n : ℕ)
      → Quiet o
      → Stays (DeskAtMost n) (asked c o user code)
  asked-keeps none code n quiet d h = h
  asked-keeps (some resolve) code n quiet d h =
      Stays-bind (DeskAtMost n) (DeskAtMost n) (resolve user code) _ d (λ s' k. k)
        (quiet code n d h)
        (λ name d' k. elim (Bool-cases (c.normalize name == "")) [
          | inl none_there ↦ rw none_there k
          | inr there ↦ rw there k
        ])

  cleaned-keeps :
      (code : String) (m : MateriaRow) (n : ℕ)
      → Quiet c.resolve_materia
      → Stays (DeskAtMost n) (cleaned c user code m)
  cleaned-keeps code m n quiet d h = elim (Bool-cases (c.normalize m.nombre == "")) [
    | inl blank ↦ rw blank (asked-keeps c.resolve_materia code n quiet d h)
    | inr clean ↦ elim (Bool-cases (c.normalize m.nombre == trim_space m.nombre)) [
      | inl same ↦ rw (clean, same) h
      | inr other ↦
          rw (clean, other)
            (Stays-bind (DeskAtMost n) (DeskAtMost n) (on_database (execute _)) _ d (λ s' k. k)
              (execute-ends (AtMost user n) _ d.database h h) (λ u d' k. k))
    ]
  ]

  from_cache-keeps :
      (code : String) (n : ℕ) (o : Option MateriaRow)
      → Quiet c.resolve_materia
      → Stays (DeskAtMost n) (from_cache c user code o)
  from_cache-keeps code n none quiet d h = asked-keeps c.resolve_materia code n quiet d h
  from_cache-keeps code n (some m) quiet d h = cleaned-keeps code m n quiet d h

  resolve-keeps :
      (code : String) (n : ℕ)
      → Quiet c.resolve_materia
      → Stays (DeskAtMost n) (resolve_materia_name c user code)
  unfolding resolve_materia_name
  resolve-keeps code n quiet d h =
      Stays-bind (DeskAtMost n) (DeskAtMost n) (on_database (query _)) _ d (λ s' k. k)
        (query-keeps (AtMost user n) _ d.database h)
        (λ cached d' k. from_cache-keeps code n cached quiet d' k)

  named-grows :
      (n : ℕ) (x : Result Error String × Desk)
      → DeskAtMost n x.1
      → DeskAtMost (n + 1) (named c user channel guild r x).1
  named-grows n (err e, d) h = omega arith
  named-grows n (panic, d) h = omega arith
  named-grows n (ok name, d) h =
      Stays-bind (DeskAtMost (n + 1)) (DeskAtMost (n + 1)) (on_database (insert_after _ _)) _ d
        (λ s' k. k)
        (insert_after-ends (AtMost user n) (AtMost user (n + 1)) (λ t k. omega arith) _ _ d.database
          (λ d' k.
            Stays-bind (λ d'. AtMost user n d'.tables) (λ d'. AtMost user n d'.tables)
              (name_materia c (trim_space r.cod_materia) name) _ d' (λ s' k. k)
              (name_materia-keeps (trim_space r.cod_materia) name n d' k) (λ u d'' k. k))
          (λ d' k. insert_job-grows user _ _ _ user (nullable channel) (nullable guild) n d' k) h)
        (λ inserted d' k. after_insert-keeps name inserted (n + 1) d' k)

  create_search-AtMost :
      Quiet c.resolve_materia → Stays (DeskAtMost 10) (create_search c user channel guild r)
  unfolding create_search find_existing_job
  create_search-AtMost quiet d h =
      query-bind (DeskAtMost 10) (searches user) _ d (λ d' e. same d' e.0)
        (λ d' e. elim (Bool-cases (leb 10 (searches user (tables_of d)))) [
          | inl full ↦ rw full (same d' e.0)
          | inr room ↦ rw room (
              Stays-bind (DeskAtMost 9) (DeskAtMost 10) (on_database (query _)) _ d'
                (λ s' k. omega arith)
                (query-keeps (AtMost user 9) _ d'.database (fewer d' e.0 room))
                (λ id d'' k. elim (Bool-cases (not (id == ""))) [
                  | inl there ↦ rw there (omega arith)
                  | inr fresh ↦ rw fresh (
                      named-grows 9 (resolve_materia_name c user (trim_space r.cod_materia) d'')
                        (resolve-keeps (trim_space r.cod_materia) 9 quiet d'' k))
                ]))
        ])
    where
      same : (d' : Desk) → tables_of d' ≡ tables_of d → DeskAtMost 10 d'
      same d' e = subst (AtMost user 10) (sym e) h

      fewer :
          (d' : Desk)
          → tables_of d' ≡ tables_of d
          → leb 10 (searches user (tables_of d)) ≡ false
          → DeskAtMost 9 d'
      fewer d' e room = subst (AtMost user 9) (sym e) (ground arith)

  save_search-keeps : (n : ℕ) → Stays (DeskAtMost n) (save_search c user channel guild r)
  unfolding save_pending_search
  save_search-keeps n d h =
      Stays-bind (DeskAtMost n) (DeskAtMost n) (on_database (execute _)) _ d (λ s' k. k)
        (execute-ends (AtMost user n) _ d.database h h) (λ u d' k. k)

  on_days-AtMost :
      (dias : List String)
      → Quiet c.resolve_materia
      → Stays (DeskAtMost 10) (on_days c user channel guild r dias)
  on_days-AtMost [] quiet d h = h
  on_days-AtMost (dia ∷ dias) quiet d h =
      Stays-bind (DeskAtMost 10) (DeskAtMost 10) (on_database (query _)) _ d (λ s' k. k)
        (query-keeps (AtMost user 10) _ d.database h)
        (λ stored d' k. elim (Bool-cases (not stored)) [
          | inl missing ↦ rw missing (save_search-keeps 10 d' k)
          | inr there ↦ rw there (create_search-AtMost quiet d' k)
        ])

-- Let a user have at most ten searches that are active or paused, and the resolver of names create
-- none of theirs. Then `buscar` leaves at most ten, whatever the request, and wherever the driver
-- fails.
pub buscar-AtMost :
    (c : Config) (user channel guild : String) (r : SearchRequest) (d : Desk)
    → Quiet c user channel guild r c.resolve_materia
    → searches user (tables_of d) ≤ 10
    → searches user (tables_of (buscar c user channel guild r d).1) ≤ 10
unfolding buscar
buscar-AtMost c user channel guild r d quiet h =
    elim (Bool-cases (not (matches_materia (trim_space r.cod_materia)))) [
      | inl wrong ↦ rw wrong h
      | inr right ↦
          rw right (on_days-AtMost c user channel guild r (filter_valid_dias r.dias) quiet d h)
    ]
