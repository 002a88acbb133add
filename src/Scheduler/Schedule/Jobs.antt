-- ===== src/Scheduler/Schedule/Jobs.antt =====
-- Which account a scheduled job belongs to, and what `pick`, `poll_now`, `next_immediate` and
-- `finish_account` change.
use uade_bot.Prelude.{
  ℕ, ◌≡◌, refl, ap, ◌==◌, String, Bool, true, false, Option, none, some, List, [], ◌∷◌, ◌++◌, arith,
  All, get_elem?, length, zero, suc, update, if◌then◌else◌, eq_iff, text-cases, ◌⊎◌, inl, inr,
  Bool-cases, Option-cases,
}
use mathlib.Core.Path.{subst}
use uade_bot.Prelude.Exec.{ok}
use uade_bot.Prelude.Dict
use uade_bot.Scheduler.Types.{Job, PersistedJob}
use uade_bot.Scheduler.Schedule.{
  Schedule, is_invalid, item_at, rem_index, add, apply_desired, pick, waiting, started, poll_now,
  next_immediate, finish_account, jobs_of, popped, no_job, drain, append_job, list_jobs,
}

-- the list of an account's jobs, after one is appended
jobs_of-append_job :
    (jobs : Dict.Dict (List Job)) (job : Job) (account : String)
    → jobs_of (append_job jobs job) account
      ≡ (if job.account == account then jobs_of jobs account ++ job ∷ [] else jobs_of jobs account)
unfolding append_job jobs_of
jobs_of-append_job jobs job account =
    rw (Dict.get-put jobs job.account account (jobs_of jobs job.account ++ job ∷ []))
      (ground (arith, eq_iff job.account account))

abbrev pub OwnJobs : Dict.Dict (List Job) → Type 0
OwnJobs jobs = (account : String) → All (λ j. j.account ≡ account) (jobs_of jobs account)

All-snoc {ℓ κ} :
    {A : Type ℓ} (P : A → Type κ) (xs : List A) (x : A) → All P xs → P x → All P (xs ++ x ∷ [])
All-snoc P [] x h p = (p, tt)
All-snoc P (y ∷ ys) x h p = (h.0, All-snoc P ys x h.1 p)

pub All-get_elem? {ℓ κ} :
    {A : Type ℓ} (P : A → Type κ) (xs : List A) (i : ℕ) (x : A)
    → All P xs
    → get_elem? xs i ≡ some x
    → P x
All-get_elem? P [] i x h e = cc
All-get_elem? P (y ∷ ys) zero x h e = let p : y ≡ x = cc in subst P p h.0
All-get_elem? P (y ∷ ys) (suc i) x h e = All-get_elem? P ys i x h.1 e

append_job-OwnJobs :
    (jobs : Dict.Dict (List Job)) (job : Job) → OwnJobs jobs → OwnJobs (append_job jobs job)
append_job-OwnJobs jobs job h account = elim (text-cases job.account account) [
  | inl same ↦
      rw (jobs_of-append_job jobs job account, (eq_iff job.account account).1 same)
        (All-snoc (λ j. j.account ≡ account) (jobs_of jobs account) job (h account) same)
  | inr other ↦ rw (jobs_of-append_job jobs job account, other) (h account)
]

list_jobs-OwnJobs :
    (desired : Dict.Dict Job) (records : List PersistedJob) (jobs : Dict.Dict (List Job))
    → OwnJobs jobs
    → OwnJobs (list_jobs desired records jobs)
unfolding list_jobs
list_jobs-OwnJobs desired [] jobs h = h
list_jobs-OwnJobs desired (r ∷ rs) jobs h =
    list_jobs-OwnJobs desired rs (append_job jobs (Dict.value_or (Dict.get desired r.id) no_job))
      (append_job-OwnJobs jobs (Dict.value_or (Dict.get desired r.id) no_job) h)

pub add-jobs :
    (job : Job) (s : Schedule)
    → ((add job s).1.jobs ≡ s.jobs) ⊎ ((add job s).1.jobs ≡ append_job s.jobs job)
unfolding add
add-jobs job s = elim (Bool-cases (is_invalid job)) [
  | inl bad ↦ rw bad (inl refl)
  | inr good ↦ elim (Bool-cases (Dict.has s.by_id job.id)) [
    | inl old ↦ rw (good, old) (inl refl)
    | inr new ↦ rw (good, new) (inr refl)
  ]
]

pub add-OwnJobs : (job : Job) (s : Schedule) → OwnJobs s.jobs → OwnJobs (add job s).1.jobs
add-OwnJobs job s h = elim (add-jobs job s) [
  | inl same ↦ rw same h
  | inr more ↦ rw more (append_job-OwnJobs s.jobs job h)
]

pub add-in_flight : (job : Job) (s : Schedule) → (add job s).1.in_flight ≡ s.in_flight
unfolding add
add-in_flight job s = ground arith

pub apply_desired-OwnJobs :
    (desired : Dict.Dict Job) (records : List PersistedJob) (s : Schedule)
    → OwnJobs (apply_desired desired records s).1.jobs
unfolding apply_desired
apply_desired-OwnJobs desired records s =
    list_jobs-OwnJobs desired records [] (λ account. unfold jobs_of Dict.get in tt)

item_at-listed :
    (jobs : List Job) (o : Option ℕ) (job : Job)
    → item_at jobs o ≡ some job
    → (i : ℕ) × (get_elem? jobs i ≡ some job)
item_at-listed jobs none job h = cc
item_at-listed jobs (some i) job h = (i, h)

pub record Picked (account : String) (s : Schedule) (job : Job) (after : Schedule) : Type 0 where
  pub was_free : s.in_flight account ≡ false
  pub flagged : after.in_flight ≡ update s.in_flight account true
  pub same_jobs : after.jobs ≡ s.jobs
  pub listed : (i : ℕ) × (get_elem? (jobs_of s.jobs account) i ≡ some job)

pub pick-Picked :
    (account : String) (s : Schedule) (job : Job) (after : Schedule)
    → pick account s ≡ (ok (some job), after)
    → Picked account s job after
unfolding pick
pick-Picked account s job after h = record {
  was_free = ground arith;
  flagged = ground arith;
  same_jobs = ground arith;
  listed =
      item_at-listed (jobs_of s.jobs account)
        (rem_index (s.pointer account) (length (jobs_of s.jobs account))) job (ground arith);
}

drain-in_flight :
    (account : String) (ids : List String) (s : Schedule)
    → ((drain account ids s).1.in_flight ≡ s.in_flight) × ((drain account ids s).1.jobs ≡ s.jobs)
unfolding drain
drain-in_flight account [] s = (refl, refl)
drain-in_flight account (id ∷ ids) s = elim (Option-cases (Dict.get s.by_id id)) [
  | inl gone ↦ rw (gone, drain) (drain-in_flight account ids (popped account id ids s))
  | inr (job, e) ↦ rw (e, drain) (refl, refl)
]

-- `next_immediate` leaves the flags and the jobs as they are.
pub next_immediate-in_flight :
    (account : String) (s : Schedule) {r : Option Job} (after : Schedule)
    → next_immediate account s ≡ (r, after)
    → (after.in_flight ≡ s.in_flight) × (after.jobs ≡ s.jobs)
unfolding next_immediate
next_immediate-in_flight account s after h =
    let (a, b) = drain-in_flight account (s.immediate account) s in
    (
      cc (ap (λ (x : Option Job × Schedule). x.1.in_flight) h, a),
      cc (ap (λ (x : Option Job × Schedule). x.1.jobs) h, b),
    )

-- What `poll_now` writes when it starts a job, and when it queues the request.
pub record Started (s : Schedule) (job : Job) (after : Schedule) : Type 0 where
  pub was_free : s.in_flight job.account ≡ false
  pub flagged : after.in_flight ≡ update s.in_flight job.account true
  pub same_jobs : after.jobs ≡ s.jobs

pub poll_now-Started :
    (id : String) (s : Schedule) (job : Job) (after : Schedule)
    → poll_now id s ≡ (started job, after)
    → Started s job after
unfolding poll_now
poll_now-Started id s job after h = ground arith

pub poll_now-waiting :
    (id : String) (s after : Schedule)
    → poll_now id s ≡ (waiting, after)
    → (after.in_flight ≡ s.in_flight) × (after.jobs ≡ s.jobs)
unfolding poll_now
poll_now-waiting id s after h = (ground arith, ground arith)

pub finish_account-in_flight :
    (account : String) (discard : Bool) (s : Schedule)
    → ((finish_account account discard s).in_flight ≡ update s.in_flight account false)
      × ((finish_account account discard s).jobs ≡ s.jobs)
unfolding finish_account
finish_account-in_flight account true s = (refl, refl)
finish_account-in_flight account false s = (refl, refl)
