-- ===== src/SqlStore/Atomicity.antt =====
-- What the transactions of the store write, whichever statement the driver fails.
use uade_bot.Prelude.{
  ℕ, ◌≡◌, refl, String, ◌==◌, Bool, true, false, ◌||◌, ◌&&◌, Option, none, some, List, [], ◌∷◌,
  ◌++◌, length, ◌⊎◌, inl, inr, if◌then◌else◌, Bool-cases,
}
use uade_bot.Prelude.Int.{pos, eqz}
use uade_bot.Prelude.Exec.{Result, ok, err, panic, continue, ◌>>=◌}
use uade_bot.Scheduler.Types.{Outcome, NotificationState, NotificationFragment, Error, external}
use uade_bot.SqlStore.Statements.{
  Database, Sql, HistoryRow, Tables, ProgressRow, statement, query, execute, touch, committed,
  close, begun, transaction, set_jobs, has_job, find_progress, unix_milli,
}
use uade_bot.SqlStore.{
  save_outcome, mark_notification_fragment_delivered, commit_notification_delivery,
  missing_identifier, bad_index, save_materia, save_history, update_job, insert_progress,
  same_fragment, progress_row, total_cupos, upsert_materia, notified, drop_progress,
}

-- The error of a call, and tables that the call left.
abbrev Fails : (Tables → Type 0) → Result Error Unit × Database → Type 0
Fails P x = (e : Error) × (x.0 ≡ err e) × P x.1.tables

-- Where the call succeeds the tables are `after`. Where it fails they are `before`, or else its
-- Commit failed and they are `after`.
abbrev pub AllOrNothing : Tables → Tables → Result Error Unit × Database → Type 0
AllOrNothing before after x =
    ((x.0 ≡ ok tt) × (x.1.tables ≡ after)) ⊎ Fails (λ t. (t ≡ before) ⊎ (t ≡ after)) x

-- the statements of a transaction, before its end
abbrev Body : Tables → Result Error Unit × Database → Type 0
Body after x = ((x.0 ≡ ok tt) × (x.1.tables ≡ after)) ⊎ Fails (λ t. Unit) x

committed-AllOrNothing :
    (before after t : Tables) (fs : List Bool)
    → t ≡ after
    → AllOrNothing before after (committed tt (touch (record { tables = t; faults = fs })))
committed-AllOrNothing before after t [] h = inl (refl, h)
committed-AllOrNothing before after t (true ∷ fs) h = inr (_, refl, inr h)
committed-AllOrNothing before after t (false ∷ fs) h = inl (refl, h)

close-AllOrNothing :
    (before after : Tables) (x : Result Error Unit × Database)
    → Body after x
    → AllOrNothing before after (close before x)
close-AllOrNothing before after (ok _, d) (inl h) =
    committed-AllOrNothing before after d.tables d.faults h.1
close-AllOrNothing before after (ok _, d) (inr h) = cc h.1
close-AllOrNothing before after (err e, d) h = inr (e, refl, inl refl)
close-AllOrNothing before after (panic, d) (inl h) = cc h.0
close-AllOrNothing before after (panic, d) (inr h) = cc h.1

transaction-AllOrNothing :
    (body : Sql Unit) (d : Database) (after : Tables)
    → ((fs : List Bool) → Body after (body (record { tables = d.tables; faults = fs })))
    → AllOrNothing d.tables after (transaction body d)
unfolding transaction
transaction-AllOrNothing body d after h = go d.faults
  where
    go :
        (fs : List Bool)
        → AllOrNothing d.tables after
            (begun body d.tables (touch (record { tables = d.tables; faults = fs })))
    go [] = close-AllOrNothing d.tables after _ (h [])
    go (true ∷ fs) = inr (_, refl, inl refl)
    go (false ∷ fs) = close-AllOrNothing d.tables after _ (h fs)

-- one statement, and what comes after it where it succeeds
statement-Body :
    {A : Type 0} (f : Tables → Result Error A × Tables) (k : A → Sql Unit) (after t : Tables)
    (fs : List Bool)
    → ((gs : List Bool)
        → Body after (let (r, t') = f t in continue r k (record { tables = t'; faults = gs })))
    → Body after ((statement f >>= k) (record { tables = t; faults = fs }))
statement-Body f k after t [] h = h []
statement-Body f k after t (true ∷ fs) h = inr (_, refl, tt)
statement-Body f k after t (false ∷ fs) h = h fs

ends-Body :
    (t after : Tables) (fs : List Bool)
    → t ≡ after
    → Body after (ok tt, record { tables = t; faults = fs })
ends-Body t after fs h = inl (refl, h)

-- the last statement
last-Body :
    (f : Tables → Result Error Unit × Tables) (after t : Tables) (fs : List Bool)
    → ((gs : List Bool)
        → Body after (let (r, t') = f t in (r, record { tables = t'; faults = gs })))
    → Body after (statement f (record { tables = t; faults = fs }))
last-Body f after t [] h = h []
last-Body f after t (true ∷ fs) h = inr (_, refl, tt)
last-Body f after t (false ∷ fs) h = h fs

-- an INSERT with a foreign key, as the last statement
guarded-Body :
    (stored : Tables → Bool) (g : Tables → Tables) (e : Error) (t : Tables) (fs : List Bool)
    → Body (g t) (
        statement
          (λ u. if stored u then (ok tt, g u) else (err e, u))
          (record { tables = t; faults = fs }))
guarded-Body stored g e t fs =
    last-Body (λ u. if stored u then (ok tt, g u) else (err e, u)) (g t) t fs
      (λ gs. elim (Bool-cases (stored t)) [
        | inl has ↦ rw has (inl (refl, refl))
        | inr has_not ↦ rw has_not (inr (e, refl, tt))
      ])

-- a job's row after a poll
abbrev pub with_poll : String → Outcome → ℕ → Tables → Tables
with_poll id o now t = record t {
  jobs =
      set_jobs id
        (λ j. record j { last_polled_at = some (unix_milli now); last_outcome = some o.code })
        t.jobs;
}

abbrev pub with_name : (String → String) → (String → String) → Outcome → ℕ → Tables → Tables
with_name trim normalize o now t = record t {
  materias =
      upsert_materia
        (record {
          codigo = trim o.materia_codigo;
          nombre = normalize o.materia_nombre;
          updated_at = unix_milli now;
        })
        t.materias;
}

-- the name of the outcome's subject, kept where both it and the code are not empty
abbrev pub with_materia : (String → String) → (String → String) → Outcome → ℕ → Tables → Tables
with_materia trim normalize o now t =
    if trim o.materia_codigo == "" || normalize o.materia_nombre == ""
    then t
    else with_name trim normalize o now t

-- one row more of the history, with the number of vacancies and of places where the poll read them
abbrev pub with_history : String → Outcome → ℕ → Tables → Tables
with_history id o now t =
    let read = o.code == "found" || o.code == "no_vacancies" in
    let row : HistoryRow = record {
      job_id = id;
      recorded_at = unix_milli now;
      outcome_code = o.code;
      vacancy_count = if read then some (pos (length o.vacancies)) else none;
      total_cupos = if read then some (total_cupos (pos 0) o.vacancies) else none;
    } in
    record t { history = t.history ++ row ∷ [] }

-- all that a poll's outcome changes
abbrev pub with_outcome :
    (String → String) → (String → String) → String → Outcome → ℕ → Tables → Tables
with_outcome trim normalize id o now t =
    with_history id o now (with_materia trim normalize o now (with_poll id o now t))

-- a fragment's row, where its key has none yet
abbrev pub with_fragment : ProgressRow → Tables → Tables
with_fragment row t = elim (find_progress row t.progress) as (λ _. Tables) [
  | some _ ↦ t
  | none ↦ record t { progress = t.progress ++ row ∷ [] }
]

abbrev pub with_commit : String → String → NotificationState → Tables → Tables
with_commit id delivery state t = record t {
  jobs = set_jobs id (notified state) t.jobs;
  progress = drop_progress id delivery t.progress;
}

module _ (trim normalize : String → String) (id : String) (o : Outcome) (now : ℕ) where
  history-Body :
      (t : Tables) (fs : List Bool)
      → Body
          (with_history id o now t)
          (save_history trim normalize id o now (record { tables = t; faults = fs }))
  unfolding save_history
  history-Body t fs =
      guarded-Body (λ u. has_job id u.jobs) (with_history id o now) (external "foreign key") t fs

  -- the statements of SaveOutcome after its first
  materia-Body :
      (t : Tables) (fs : List Bool)
      → Body (with_history id o now (with_materia trim normalize o now t)) (
          (save_materia trim normalize o now >>= λ _. save_history trim normalize id o now)
            (record { tables = t; faults = fs }))
  unfolding save_materia execute
  materia-Body t fs =
      elim (Bool-cases (trim o.materia_codigo == "" || normalize o.materia_nombre == "")) [
        | inl blank ↦ rw blank (history-Body t fs)
        | inr given ↦ rw given (
            statement-Body (λ u. (ok tt, with_name trim normalize o now u))
              (λ _. save_history trim normalize id o now)
              (with_history id o now (with_name trim normalize o now t)) t fs
              (λ gs. history-Body (with_name trim normalize o now t) gs))
      ]

  save_outcome-AllOrNothing :
      (d : Database)
      → AllOrNothing d.tables
          (with_outcome trim normalize id o now d.tables)
          (save_outcome trim normalize id o now d)
  unfolding save_outcome execute
  save_outcome-AllOrNothing d =
      transaction-AllOrNothing
        (execute (with_poll id o now) >>= λ _.
          (save_materia trim normalize o now >>= λ _. save_history trim normalize id o now))
        d (with_outcome trim normalize id o now d.tables)
        (λ fs.
          statement-Body (λ t. (ok tt, with_poll id o now t))
            (λ _. (save_materia trim normalize o now >>= λ _. save_history trim normalize id o now))
            (with_outcome trim normalize id o now d.tables) d.tables fs
            (λ gs. materia-Body (with_poll id o now d.tables) gs))

same-Body :
    (f : NotificationFragment) (row : ProgressRow) (t : Tables) (fs : List Bool)
    → Body t (
        query
          (λ u. same_fragment f (find_progress row u.progress))
          (record { tables = t; faults = fs }))
unfolding query
same-Body f row t fs =
    last-Body (λ u. (same_fragment f (find_progress row u.progress), u)) t t fs
      (λ gs. answer (find_progress row t.progress) gs)
  where
    answer :
        (o : Option ProgressRow) (gs : List Bool)
        → Body t (same_fragment f o, record { tables = t; faults = gs })
    answer none gs = inr (_, refl, tt)
    answer (some r) gs =
        elim (Bool-cases (
          eqz r.fragment_count f.fragment_count
          && r.fragment_fingerprint == f.fragment_fingerprint)) [
            | inl same ↦ rw same (inl (refl, refl))
            | inr other ↦ rw other (inr (_, refl, tt))
          ]

-- INSERT OR IGNORE, then the row that is there
fragment-Body :
    (row : ProgressRow) (f : NotificationFragment) (t : Tables) (fs : List Bool)
    → Body (with_fragment row t) (
        (insert_progress row >>= λ _. query (λ u. same_fragment f (find_progress row u.progress)))
          (record { tables = t; faults = fs }))
unfolding insert_progress
fragment-Body row f t fs =
    statement-Body
      (λ u.
        if has_job row.job_id u.jobs
        then (ok tt, with_fragment row u)
        else (err (external "foreign key"), u))
      (λ _. query (λ u. same_fragment f (find_progress row u.progress))) (with_fragment row t) t fs
      (λ gs. elim (Bool-cases (has_job row.job_id t.jobs)) [
        | inl has ↦ rw has (same-Body f row (with_fragment row t) gs)
        | inr has_not ↦ rw has_not (inr (_, refl, tt))
      ])

commit-Body :
    (id delivery : String) (s : NotificationState) (t : Tables) (fs : List Bool)
    → Body (with_commit id delivery s t) (
        (update_job id s >>= λ _.
        execute (λ u. record u { progress = drop_progress id delivery u.progress }))
          (record { tables = t; faults = fs }))
unfolding update_job execute
commit-Body id delivery s t fs =
    statement-Body
      (λ u.
        if has_job id u.jobs
        then (ok tt, record u { jobs = set_jobs id (notified s) u.jobs })
        else (err (external "notification delivery job not found"), u))
      (λ _. execute (λ u. record u { progress = drop_progress id delivery u.progress }))
      (with_commit id delivery s t) t fs
      (λ gs. elim (Bool-cases (has_job id t.jobs)) [
        | inl has ↦ rw has (
            last-Body (λ u. (ok tt, record u { progress = drop_progress id delivery u.progress }))
              (with_commit id delivery s t) (record t { jobs = set_jobs id (notified s) t.jobs }) gs
              (λ hs. inl (refl, refl)))
        | inr has_not ↦ rw has_not (inr (_, refl, tt))
      ])

unless-AllOrNothing :
    (b : Bool) (e : Error) (m : Sql Unit) (d : Database) (after : Tables)
    → AllOrNothing d.tables after (m d)
    → AllOrNothing d.tables after ((if b then (λ d. (err e, d)) else m) d)
unless-AllOrNothing true e m d after h = inr (e, refl, inl refl)
unless-AllOrNothing false e m d after h = h

-- Whatever the database holds and whichever statements fail: where `SaveOutcome`,
-- `MarkNotificationFragmentDelivered` or `CommitNotificationDelivery` answers without an error, the
-- tables hold all of its effect: for the first the job's row, the name of the subject where it is
-- given and one row of the history, for the second the fragment's row where there was none, and for
-- the third the notification state of the job and no fragment of the delivery. Where it answers an
-- error the tables are as they were, or else hold all of the effect, as after a Commit that fails.
pub writes-AllOrNothing :
    (trim normalize : String → String) (d : Database)
    → ((id : String) (o : Outcome) (now : ℕ)
        → AllOrNothing d.tables
            (with_outcome trim normalize id o now d.tables)
            (save_outcome trim normalize id o now d))
      × ((id delivery : String) (f : NotificationFragment)
          → AllOrNothing d.tables
              (with_fragment (progress_row id delivery f) d.tables)
              (mark_notification_fragment_delivered id delivery f d))
      × ((id delivery : String) (s : NotificationState)
          → AllOrNothing d.tables
              (with_commit id delivery s d.tables)
              (commit_notification_delivery id delivery s d))
unfolding mark_notification_fragment_delivered commit_notification_delivery
writes-AllOrNothing trim normalize d = (
  (λ id o now. save_outcome-AllOrNothing trim normalize id o now d),
  (λ id delivery f. unless-AllOrNothing (missing_identifier id delivery f) _ _ d _ (
      unless-AllOrNothing (bad_index f) _ _ d _
        (transaction-AllOrNothing _ d _ (fragment-Body (progress_row id delivery f) f d.tables)))),
  (λ id delivery s.
      unless-AllOrNothing (id == "" || delivery == "") _ _ d _
        (transaction-AllOrNothing _ d _ (commit-Body id delivery s d.tables))),
)
