-- ===== src/JobActions/Changes.antt =====
-- What an operator's change does to the jobs.
use uade_bot.Prelude.{
  ◌≡◌, refl, sym, ap, ◌∙◌, String, ◌==◌, Bool, true, false, Option, none, some, List, [], ◌∷◌,
  if◌then◌else◌, arith, eq_iff, text-cases, inl, inr,
}
use uade_bot.SqlStore.Statements.{JobRow, Database, find_job, set_jobs}
use uade_bot.JobActions.{mutate, set_status, delete_job, without}

-- the job of an id after an action on `id`
abbrev pub changed : String → JobRow → Option JobRow
changed action j =
    if action == "pausar"
    then some (record j { status = "paused_by_user" })
    else if action == "reanudar"
    then some (record j { status = "active" })
    else if action == "detener"
    then none
    else some j

abbrev pub change_at : Bool → String → Option JobRow → Option JobRow
change_at same action none = none
change_at false action (some j) = some j
change_at true action (some j) = changed action j

abbrev with_status : String → Bool → Option JobRow → Option JobRow
with_status status same none = none
with_status status false (some j) = some j
with_status status true (some j) = some (record j { status = status })

find_job-set_status :
    (id other status : String) (js : List JobRow)
    → find_job other (set_jobs id (λ j. record j { status = status }) js)
      ≡ with_status status (id == other) (find_job other js)
unfolding find_job set_jobs
find_job-set_status id other status [] = refl
find_job-set_status id other status (j ∷ js) = ground (
  arith,
  eq_iff j.id id,
  eq_iff j.id other,
  eq_iff id other,
  find_job-set_status id other status js,
)

find_job-without :
    (id other : String) (js : List JobRow)
    → find_job other (without id js) ≡ (if id == other then none else find_job other js)
unfolding find_job without
find_job-without id other [] = ground arith
find_job-without id other (j ∷ js) =
    ground (arith, eq_iff j.id id, eq_iff j.id other, eq_iff id other, find_job-without id other js)

unchanged :
    (action : String) (same : Bool) (o : Option JobRow)
    → (action == "pausar") ≡ false
    → (action == "reanudar") ≡ false
    → (action == "detener") ≡ false
    → change_at same action o ≡ o
unchanged action same none p r d = refl
unchanged action true (some j) p r d = rw (p, r, d) refl
unchanged action false (some j) p r d = refl

paused :
    (same : Bool) (o : Option JobRow)
    → with_status "paused_by_user" same o ≡ change_at same "pausar" o
paused same none = refl
paused true (some j) = refl
paused false (some j) = refl

resumed :
    (same : Bool) (o : Option JobRow) → with_status "active" same o ≡ change_at same "reanudar" o
resumed same none = refl
resumed true (some j) = refl
resumed false (some j) = refl

deleted_row :
    (same : Bool) (o : Option JobRow) → (if same then none else o) ≡ change_at same "detener" o
deleted_row true none = refl
deleted_row false none = refl
deleted_row true (some j) = refl
deleted_row false (some j) = refl

invalid :
    (action id : String) (d : Database)
    → (action == "pausar") ≡ false
    → (action == "reanudar") ≡ false
    → (action == "detener") ≡ false
    → (mutate action id d).1 ≡ d
unfolding mutate
invalid action id d p r t = rw (p, r, t) refl

-- Where the driver does not fail, an action changes the job of its id alone: `pausar` and `reanudar`
-- set its status, `detener` deletes it, and any other action changes nothing.
pub find_job-mutate :
    (action id other : String) (d : Database)
    → d.faults ≡ []
    → let (r, d') = mutate action id d in
      find_job other d'.tables.jobs ≡ change_at (id == other) action (find_job other d.tables.jobs)
unfolding mutate set_status delete_job
find_job-mutate action id other d nofault = elim (text-cases action "pausar") [
  | inl e ↦
      rw (e, nofault)
        (find_job-set_status id other "paused_by_user" d.tables.jobs
          ∙ paused (id == other) (find_job other d.tables.jobs))
  | inr p ↦ elim (text-cases action "reanudar") [
    | inl e ↦
        rw (e, nofault)
          (find_job-set_status id other "active" d.tables.jobs
            ∙ resumed (id == other) (find_job other d.tables.jobs))
    | inr r ↦ elim (text-cases action "detener") [
      | inl e ↦
          rw (e, nofault)
            (find_job-without id other d.tables.jobs
              ∙ deleted_row (id == other) (find_job other d.tables.jobs))
      | inr t ↦ sym (
          unchanged action (id == other) (find_job other d.tables.jobs) p r t
          ∙ ap (λ (k : Database). find_job other k.tables.jobs) (sym (invalid action id d p r t)))
    ]
  ]
]
