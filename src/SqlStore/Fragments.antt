-- ===== src/SqlStore/Fragments.antt =====
-- The durable progress of a delivery: what was marked is found again, and a commit clears it.
use uade_bot.Scheduler.Types.{no_notification_state}
use uade_bot.SqlStore.Statements.{execute}
use uade_bot.SqlStore.{execute}
use uade_bot.Prelude.{
  ◌≡◌, refl, ap, ◌∙◌, String, ◌==◌, false, ◌&&◌, ◌||◌, some, List, [], ◌∷◌, arith, inl, inr,
  if◌then◌else◌, Bool-cases, eq_iff, eq_refl, text-cases,
}
use uade_bot.Prelude.Exec.{ok}
use uade_bot.Scheduler.Types.{NotificationState}
use uade_bot.SqlStore.Statements.{
  Database, JobRow, ProgressRow, transaction, query, find_job, set_jobs,
}
use uade_bot.SqlStore.{
  notification_state, notification_of, notified, fragments, delivered_notification_fragments,
  by_key, commit_notification_delivery, drop_progress,
}

fragments-drop_progress :
    (id delivery : String) (rs : List ProgressRow)
    → fragments id delivery (drop_progress id delivery rs) ≡ []
unfolding drop_progress
fragments-drop_progress id delivery [] = refl
fragments-drop_progress id delivery (r ∷ rs) =
    elim (Bool-cases (r.job_id == id && r.delivery_fingerprint == delivery)) [
      | inl its ↦ rw its (fragments-drop_progress id delivery rs)
      | inr other ↦ rw (other, other) (fragments-drop_progress id delivery rs)
    ]

fragments-drop_progress_ne :
    (id delivery id' delivery' : String) (rs : List ProgressRow)
    → (id == id' && delivery == delivery') ≡ false
    → fragments id' delivery' (drop_progress id delivery rs) ≡ fragments id' delivery' rs
unfolding drop_progress
fragments-drop_progress_ne id delivery id' delivery' [] h = refl
fragments-drop_progress_ne id delivery id' delivery' (r ∷ rs) h = ground (
  arith,
  fragments-drop_progress_ne id delivery id' delivery' rs h,
  eq_iff r.job_id id,
  eq_iff r.job_id id',
  eq_iff r.delivery_fingerprint delivery,
  eq_iff r.delivery_fingerprint delivery',
  eq_iff id id',
  eq_iff delivery delivery',
)

notified-id : (s : NotificationState) (k : JobRow) → (notified s k).id ≡ k.id
notified-id s k = ground arith

find_job-set_jobs :
    (id : String) (f : JobRow → JobRow) (js : List JobRow) (j : JobRow)
    → ((k : JobRow) → (f k).id ≡ k.id)
    → find_job id js ≡ some j
    → find_job id (set_jobs id f js) ≡ some (f j)
unfolding find_job set_jobs
find_job-set_jobs id f [] j h e = cc
find_job-set_jobs id f (k ∷ js) j h e =
    ground (arith, h k, eq_iff k.id id, eq_iff (f k).id id, find_job-set_jobs id f js j h)

-- the database after a commit
abbrev after_commit : Database → String → String → NotificationState → Database
after_commit d id delivery s = record {
  tables = record d.tables {
    jobs = set_jobs id (notified s) d.tables.jobs;
    progress = drop_progress id delivery d.tables.progress;
  };
  faults = [];
}

commit_lem :
    (d : Database) (id delivery : String) (s : NotificationState) (j : JobRow)
    → d.faults ≡ []
    → find_job id d.tables.jobs ≡ some j
    → (id == "" || delivery == "") ≡ false
    → commit_notification_delivery id delivery s d ≡ (ok tt, after_commit d id delivery s)
unfolding commit_notification_delivery transaction execute
commit_lem d id delivery s j nofault row named = rw (named, nofault, row) refl

notified_back :
    (s : NotificationState) (j : JobRow)
    → notification_of (some (notified s j))
      ≡ (if s.vacancy_key == "" then no_notification_state else s)
notified_back s j = elim (Bool-cases (s.vacancy_key == "")) [
  | inl none_left ↦ rw none_left refl
  | inr found ↦ rw found refl
]

fragments-committed :
    (id delivery id' delivery' : String) (rs : List ProgressRow)
    → fragments id' delivery' (drop_progress id delivery rs)
      ≡ (if id == id' && delivery == delivery' then [] else fragments id' delivery' rs)
fragments-committed id delivery id' delivery' rs = elim (text-cases id id') [
  | inl i ↦ elim (text-cases delivery delivery') [
    | inl e ↦ rw (← i, ← e, eq_refl id, eq_refl delivery) (fragments-drop_progress id delivery rs)
    | inr e ↦
        let other : (id == id' && delivery == delivery') ≡ false = ground (arith, e) in
        rw other (fragments-drop_progress_ne id delivery id' delivery' rs other)
  ]
  | inr i ↦
      let other : (id == id' && delivery == delivery') ≡ false = ground (arith, i) in
      rw other (fragments-drop_progress_ne id delivery id' delivery' rs other)
]

-- Let the driver not fail, and a delivery of a stored job be committed, with identifiers that are
-- not empty. Then no error is answered; the job's notification state reads as the committed one,
-- or as the zero value for an empty key; no fragment of this delivery is left, and those of every
-- other delivery are read as before, in the order of the route and the index.
pub commit-clears :
    (d : Database) (id delivery id' delivery' : String) (s : NotificationState) (j : JobRow)
    → d.faults ≡ []
    → find_job id d.tables.jobs ≡ some j
    → (id == "" || delivery == "") ≡ false
    → let (r, d') = commit_notification_delivery id delivery s d in
      (r ≡ ok tt)
      × ((notification_state id d').0
          ≡ ok (if s.vacancy_key == "" then no_notification_state else s))
      × ((delivered_notification_fragments id' delivery' d').0
          ≡ ok (
              by_key (
                if id == id' && delivery == delivery'
                then []
                else fragments id' delivery' d.tables.progress)))
unfolding notification_state delivered_notification_fragments query
commit-clears d id delivery id' delivery' s j nofault row named =
    rw (commit_lem d id delivery s j nofault row named) (
      refl,
      ap (λ o. ok (notification_of o))
            (find_job-set_jobs id (notified s) d.tables.jobs j (notified-id s) row)
          ∙ ap ok (notified_back s j),
      ap (λ fs. ok (by_key fs)) (fragments-committed id delivery id' delivery' d.tables.progress),
    )
