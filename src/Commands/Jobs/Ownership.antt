-- ===== src/Commands/Jobs/Ownership.antt =====
-- A user's own command reaches no search of anyone else.
use uade_bot.Prelude.{
  ◌≡◌, refl, sym, ap, ◌∙◌, String, ◌==◌, Bool, true, false, not, ◌&&◌, Option, none, some, List, [],
  ◌∷◌, if◌then◌else◌, arith, Bool-cases, text-cases, eq_iff, inl, inr,
}
use uade_bot.Prelude.Int.{ℤ}
use uade_bot.Prelude.Decimal.{itoa}
use uade_bot.SqlStore.Statements.{JobRow, Database, Tables, find_job, set_jobs}
use uade_bot.JobActions.{without}
use uade_bot.Commands.Desk.{Desk, Config, on_database, call, jobs_changed, job_created}
use uade_bot.Commands.Desk.Frames.{Stays, Stays-bind, run-ends, call-ends, tables_of}
use uade_bot.Commands.Jobs.{
  owns, status_of, job_changed, job_change, change_job, mutate_number, by_number, mutate_job,
  parse_int,
}

find_job-set_ne :
    (id other status : String) (js : List JobRow)
    → (id == other) ≡ false
    → find_job other (set_jobs id (λ j. record j { status = status }) js) ≡ find_job other js
unfolding find_job set_jobs
find_job-set_ne id other status [] ne = refl
find_job-set_ne id other status (j ∷ js) ne = ground (
  arith,
  eq_iff j.id id,
  eq_iff j.id other,
  eq_iff id other,
  find_job-set_ne id other status js ne,
)

find_job-without_ne :
    (id other : String) (js : List JobRow)
    → (id == other) ≡ false
    → find_job other (without id js) ≡ find_job other js
unfolding find_job without
find_job-without_ne id other [] ne = refl
find_job-without_ne id other (j ∷ js) ne =
    ground (
      arith,
      eq_iff j.id id,
      eq_iff j.id other,
      eq_iff id other,
      find_job-without_ne id other js ne,
    )

job_changed-ne :
    (action id other : String) (t : Tables)
    → (id == other) ≡ false
    → find_job other (job_changed action id t).jobs ≡ find_job other t.jobs
job_changed-ne action id other t ne = elim (Bool-cases (action == "detener")) [
  | inl stop ↦ rw stop (find_job-without_ne id other t.jobs ne)
  | inr keep ↦ rw keep (find_job-set_ne id other (status_of action) t.jobs ne)
]

module _ (user other : String) (j : JobRow) where
  abbrev Has : Tables → Type 0
  Has t = find_job other t.jobs ≡ some j

  owned-ne :
      (id : String) (t : Tables)
      → (j.discord_user_id == user) ≡ false
      → Has t
      → owns false user (find_job id t.jobs) ≡ true
      → (id == other) ≡ false
  owned-ne id t foreign has owned = elim (text-cases id other) [
    | inl same ↦ absurd (
        different
          (sym owned ∙ ap (owns false user) (ap (λ k. find_job k t.jobs) same ∙ has) ∙ foreign))
    | inr ne ↦ ne
  ]
    where
      different : true ≡ false → ⊥
      different h = cc

  change_job-Has :
      (action id : String) (d : Database)
      → (j.discord_user_id == user) ≡ false
      → Has d.tables
      → Has (change_job false user action id d).1.tables
  unfolding change_job job_change
  change_job-Has action id d foreign has =
      run-ends Has (job_change false user action id) d.tables d.faults has
        (changed (owns false user (find_job id d.tables.jobs)) refl)
    where
      changed :
          (b : Bool)
          → owns false user (find_job id d.tables.jobs) ≡ b
          → Has (if b then job_changed action id d.tables else d.tables)
      changed true owned =
          job_changed-ne action id other d.tables (owned-ne id d.tables foreign has owned) ∙ has
      changed false foreign_or_none = has

  abbrev DeskHas : Desk → Type 0
  DeskHas d = Has (tables_of d)

  mutate_number-Has :
      (c : Config) (action : String) (n : ℤ)
      → (j.discord_user_id == user) ≡ false
      → Stays DeskHas (mutate_number c user action false n)
  unfolding mutate_number
  mutate_number-Has c action n foreign d has =
      Stays-bind DeskHas DeskHas (on_database (change_job false user action (itoa n))) _ d
        (λ s k. k) (change_job-Has action (itoa n) d.database foreign has)
        (λ found d' k. elim (Bool-cases (not found)) [
          | inl missing ↦ rw missing k
          | inr there ↦ rw there (
              call-ends Has (action == "reanudar" && c.on_job_created) (job_created (itoa n))
                (call c.on_jobs_changed jobs_changed d').1
                (call-ends Has c.on_jobs_changed jobs_changed d' k))
        ])

  by_number-Has :
      (c : Config) (action : String) (n : Option ℤ)
      → (j.discord_user_id == user) ≡ false
      → Stays DeskHas (by_number c user action false n)
  by_number-Has c action none foreign d has = has
  by_number-Has c action (some n) foreign d has = mutate_number-Has c action n foreign d has

-- Whatever number a user gives to `detener`, `pausar` or `reanudar`, and wherever the driver fails,
-- a stored job of anyone else is as before.
pub mutate_job-foreign :
    (c : Config) (user action text other : String) (j : JobRow) (d : Desk)
    → (j.discord_user_id == user) ≡ false
    → find_job other (tables_of d).jobs ≡ some j
    → find_job other (tables_of (mutate_job c user action text false d).1).jobs ≡ some j
unfolding mutate_job
mutate_job-foreign c user action text other j d foreign has =
    by_number-Has user other j c action (parse_int text) foreign d has
