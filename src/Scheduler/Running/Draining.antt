-- ===== src/Scheduler/Running/Draining.antt =====
-- A worker that no other goroutine comes in between serves all the polls that wait for its account.
use uade_bot.Prelude.{
  ℕ, zero, suc, ◌<◌, ◌≡◌, refl, sym, ap, ◌∙◌, subst, String, false, Option, none, some, List, [],
  ◌∷◌, length, All, arith, update_self, Option-cases, inl, inr,
}
use uade_bot.Prelude.Dict
use uade_bot.Scheduler.Types.{Job, Error}
use uade_bot.Scheduler.Ports.{Ports}
use uade_bot.Scheduler.Schedule.{Schedule, drain, popped, next_immediate, finish_account}
use uade_bot.Scheduler.Running.{
  Scheduler, Runner, run_job_pipeline, run_jobs, run_account, add_error,
}

-- the scheduled jobs among these ids belong to the account
abbrev pub OwnIds : Dict.Dict Job → String → List String → Type 0
OwnIds by_id account =
    All (λ id. (job : Job) → Dict.get by_id id ≡ some job → job.account ≡ account)

-- What `drain` hands out, and what it leaves.
record Drained (account : String) (ids : List String) (by_id : Dict.Dict Job)
    (r : Option Job × Schedule) : Type 0 where
  same : r.1.by_id ≡ by_id
  emptied : r.0 ≡ none → r.1.immediate account ≡ []
  fewer : (job : Job) → r.0 ≡ some job → length (r.1.immediate account) < length ids
  rest : (job : Job) → r.0 ≡ some job → OwnIds by_id account (r.1.immediate account)
  mine : (job : Job) → r.0 ≡ some job → job.account ≡ account

drain_gone :
    (account id : String) (ids : List String) (s : Schedule)
    → Dict.get s.by_id id ≡ none
    → drain account (id ∷ ids) s ≡ drain account ids (popped account id ids s)
unfolding drain
drain_gone account id ids s gone = rw (gone, drain) refl

drain_found :
    (account id : String) (ids : List String) (s : Schedule) (job : Job)
    → Dict.get s.by_id id ≡ some job
    → drain account (id ∷ ids) s ≡ (some job, popped account id ids s)
unfolding drain
drain_found account id ids s job found = rw (found, drain) refl

drain-Drained :
    (account : String) (ids : List String) (s : Schedule)
    → OwnIds s.by_id account ids
    → Drained account ids s.by_id (drain account ids s)
unfolding drain
drain-Drained account [] s own = record {
  same = refl;
  emptied = λ _. update_self s.immediate account [];
  fewer = λ job h. cc;
  rest = λ job h. cc;
  mine = λ job h. cc;
}
drain-Drained account (id ∷ ids) s own = elim (Option-cases (Dict.get s.by_id id)) [
  | inl gone ↦
      let d = drain-Drained account ids (popped account id ids s) own.1 in
      subst (Drained account (id ∷ ids) s.by_id) (sym (drain_gone account id ids s gone)) (record {
        same = d.same;
        emptied = d.emptied;
        fewer = λ job h. omega (arith, d.fewer job h);
        rest = d.rest;
        mine = d.mine;
      })
  | inr (found, e) ↦
      subst (Drained account (id ∷ ids) s.by_id) (sym (drain_found account id ids s found e))
        (record {
          same = refl;
          emptied = λ h. cc;
          fewer = λ job h. rw (update_self s.immediate account ids) (omega arith);
          rest = λ job h. rw (update_self s.immediate account ids) own.1;
          mine = λ job h.
              let same : found ≡ job = cc in
              subst (λ (j : Job). j.account ≡ account) same (own.0 found e);
        })
]

module _ {W : Type 0} (p : Ports W) (r : Runner W) where
  -- what `run_jobs` does after the pipeline of a job
  continues :
      (fuel : ℕ) (first : String) (job next : Job) (errs : List Error) (s : Scheduler W)
      (after : Schedule)
      → next_immediate job.account s.schedule ≡ (some next, after)
      → run_jobs p r (suc fuel) first job errs s
        ≡ run_jobs p r fuel first next
            (add_error p (run_job_pipeline p r job s.host).0 errs)
            (record { schedule = after; host = (run_job_pipeline p r job s.host).1 })
  unfolding run_jobs
  continues fuel first job next errs s after e = rw (e, run_jobs) refl

  ends :
      (fuel : ℕ) (first : String) (job : Job) (errs : List Error) (s : Scheduler W)
      (after : Schedule)
      → next_immediate job.account s.schedule ≡ (none, after)
      → run_jobs p r (suc fuel) first job errs s
        ≡ some (
          add_error p (run_job_pipeline p r job s.host).0 errs,
          record {
            schedule = finish_account first false after;
            host = (run_job_pipeline p r job s.host).1;
          },
        )
  unfolding run_jobs
  ends fuel first job errs s after e = rw (e, run_jobs) refl

  -- With more fuel than there are ids in the account's queue, and only own jobs in it, the loop of
  -- `runAccount` ends: the queue is then empty and the account is no longer in flight.
  pub run_jobs-drains :
      (fuel : ℕ) (first : String) (job : Job) (errs : List Error) (s : Scheduler W)
      → length (s.schedule.immediate first) < fuel
      → job.account ≡ first
      → OwnIds s.schedule.by_id first (s.schedule.immediate first)
      → (es : List Error) × (t : Scheduler W) × (run_jobs p r fuel first job errs s ≡ some (es, t))
        × (t.schedule.immediate first ≡ [])
        × (t.schedule.in_flight first ≡ false)
  unfolding next_immediate
  run_jobs-drains zero first job errs s h mine own = elim h [ ]
  run_jobs-drains (suc fuel) first job errs s h mine own =
      let d = drain-Drained first (s.schedule.immediate first) s.schedule own in
      let m = run_job_pipeline p r job s.host in
      let after = (next_immediate first s.schedule).1 in
      elim (Option-cases (next_immediate first s.schedule).0) [
        | inl e ↦ (
          add_error p m.0 errs,
          record { schedule = finish_account first false after; host = m.1 },
          ends fuel first job errs s after (rw mine (ap (λ o. (o, after)) e)),
          unfold finish_account in d.emptied e,
          unfold finish_account in update_self after.in_flight first false,
        )
        | inr (next, e) ↦
            let (es, t, done, empty, free) =
              run_jobs-drains fuel first next (add_error p m.0 errs)
                (record { schedule = after; host = m.1 }) (omega (arith, d.fewer next e))
                (d.mine next e)
                (subst (λ ids. OwnIds ids first (after.immediate first)) (sym d.same)
                  (d.rest next e)) in
            (
              es,
              t,
              continues fuel first job next errs s after (rw mine (ap (λ o. (o, after)) e)) ∙ done,
              empty,
              free,
            )
      ]

  -- Let only an account's own jobs wait in its queue, and let no other goroutine come in between.
  -- Then `runAccount` ends, whatever its jobs return, and however they panic: one round for each
  -- waiting id and one more suffice, no id is left in the queue, and the account is free again.
  pub run_account-drains :
      (fuel : ℕ) (job : Job) (s : Scheduler W)
      → length (s.schedule.immediate job.account) < fuel
      → OwnIds s.schedule.by_id job.account (s.schedule.immediate job.account)
      → (es : List Error) × (t : Scheduler W) × (run_account p r fuel job s ≡ some (es, t))
        × (t.schedule.immediate job.account ≡ [])
        × (t.schedule.in_flight job.account ≡ false)
  unfolding run_account
  run_account-drains fuel job s h own = run_jobs-drains fuel job.account job [] s h refl own
