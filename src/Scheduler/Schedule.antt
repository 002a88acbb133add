-- ===== src/Scheduler/Schedule.antt =====
-- The schedule of scheduler.go, the maps that `mu` guards, and the critical sections on them: each
-- function below is what one holder of the lock does. Where the code starts a goroutine, the
-- function returns the job that it is started with.
pub mod Jobs
pub mod Reconciling
pub mod RoundRobin
use uade_bot.Prelude.{
  ℕ, ◌+◌, ◌%◌, ◌-◌, String, ◌==◌, Bool, true, false, ◌&&◌, ◌||◌, not, Option, none, some, List, [],
  ◌∷◌, ◌++◌, if◌then◌else◌, leb, ltb, eqb, length, get_elem?, Map, update,
}
use uade_bot.Prelude.Dict
use uade_bot.Prelude.Dict.{Dict, value_or}
use uade_bot.Prelude.Int.{ℤ, pos, negsuc, ◌+ℤ◌, lez}
use uade_bot.Prelude.Exec.{Result, ok, err, panic}
use uade_bot.Scheduler.Types.{Job, PersistedJob, Error, invalid_job, build_failed}

-- `jobs` and `by_id` are iterated over and counted, the others only looked up.
pub record Schedule : Type 0 where
  pub jobs : Dict (List Job)
  pub by_id : Dict Job
  pub pointer : Map ℤ
  pub in_flight : Map Bool
  pub immediate : Map (List String)
  pub queued : Map Bool

-- the maps that `New` makes
abbrev pub init : Schedule
init = record {
  jobs = [];
  by_id = [];
  pointer = λ _. pos 0;
  in_flight = λ _. false;
  immediate = λ _. [];
  queued = λ _. false;
}

-- s.jobs[account]
unfoldable pub jobs_of : Dict (List Job) → String → List Job
unfolding Dict.get
jobs_of jobs account = value_or (Dict.get jobs account) []

-- s.jobs[job.Account] = append(s.jobs[job.Account], job)
unfoldable pub append_job : Dict (List Job) → Job → Dict (List Job)
unfolding jobs_of Dict.put
append_job jobs job = Dict.put jobs job.account (jobs_of jobs job.account ++ job ∷ [])

abbrev pub is_invalid : Job → Bool
is_invalid job = job.id == "" || (job.account == "" || not job.runnable)

unfoldable pub add : Job → Schedule → Bool × Schedule
unfolding Dict.has Dict.put append_job
add job s =
    if is_invalid job
    then (false, s)
    else if Dict.has s.by_id job.id
    then (false, s)
    else (true, record s { by_id = Dict.put s.by_id job.id job; jobs = append_job s.jobs job })

-- Accounts and Jobs
unfoldable pub accounts : Schedule → ℕ
accounts s = length s.jobs

unfoldable pub job_count : Schedule → ℕ
job_count s = length s.by_id

-- one record of the loop of `Reconcile` that builds the jobs
abbrev pub accept :
    PersistedJob → Result Error Job → (Job → Result Error (Dict Job)) → Result Error (Dict Job)
accept r (err e) rest = err (build_failed r.id e)
accept r panic rest = panic
accept r (ok job) rest = if is_invalid job then err (invalid_job r.id) else rest job

unfoldable pub desired_jobs :
    (PersistedJob → Result Error Job) → List PersistedJob → Dict Job → Result Error (Dict Job)
unfolding Dict.put
desired_jobs factory [] desired = ok desired
desired_jobs factory (r ∷ rs) desired =
    accept r (factory r) (λ job. desired_jobs factory rs (Dict.put desired job.id job))

-- the first loop under the lock, with `added`
unfoldable pub put_desired : Dict Job → ℕ × Dict Job → ℕ × Dict Job
unfolding Dict.has Dict.put
put_desired [] acc = acc
put_desired ((id, job) ∷ d) (added, by_id) =
    put_desired d (if Dict.has by_id id then added else added + 1, Dict.put by_id id job)

-- the second: what is no longer active is dropped
unfoldable pub drop_stale : Dict Job → List String → Dict Job × Map Bool → Dict Job × Map Bool
unfolding Dict.has Dict.remove
drop_stale desired [] acc = acc
drop_stale desired (id ∷ ids) (by_id, queued) = drop_stale desired ids (
    if Dict.has desired id then (by_id, queued) else (Dict.remove by_id id, update queued id false))

abbrev pub no_job : Job
no_job = record {
  account = "";
  id = "";
  channel = "";
  materia_codigo = "";
  label = "";
  runnable = false;
}

-- the third: `desired[record.ID]` is the zero value for an id that no job has
unfoldable pub list_jobs : Dict Job → List PersistedJob → Dict (List Job) → Dict (List Job)
unfolding append_job Dict.get
list_jobs desired [] jobs = jobs
list_jobs desired (r ∷ rs) jobs =
    list_jobs desired rs (append_job jobs (value_or (Dict.get desired r.id) no_job))

-- pointer % count, for a pointer that is not negative
abbrev pub wrap_pointer : ℤ → ℕ → ℤ
wrap_pointer (pos n) count =
    if eqb count 0 then pos 0 else if leb count n then pos (n % count) else pos n
wrap_pointer (negsuc n) count = if eqb count 0 then pos 0 else negsuc n

-- what `Reconcile` does under the lock
unfoldable pub apply_desired : Dict Job → List PersistedJob → Schedule → ℕ × Schedule
unfolding put_desired drop_stale list_jobs Dict.keys jobs_of
apply_desired desired records s =
    let (added, by_id) = put_desired desired (0, s.by_id) in
    let (kept, queued) = drop_stale desired (Dict.keys by_id) (by_id, s.queued) in
    let jobs = list_jobs desired records [] in
    (
      added,
      record s {
        by_id = kept;
        queued = queued;
        jobs = jobs;
        pointer = λ account. wrap_pointer (s.pointer account) (length (jobs_of jobs account));
      },
    )

-- p % n on `int` as an index; `none` is a negative one
unfoldable pub rem_index : ℤ → ℕ → Option ℕ
rem_index (pos p) n = some (p % n)
rem_index (negsuc p) n = if eqb ((p + 1) % n) 0 then some 0 else none

abbrev pub item_at : List Job → Option ℕ → Option Job
item_at jobs none = none
item_at jobs (some i) = get_elem? jobs i

abbrev pub is_empty : List Job → Bool
is_empty [] = true
is_empty (_ ∷ _) = false

-- an index out of range panics, after the counters are written
abbrev pub picked : Option Job → Result Error (Option Job)
picked none = panic
picked (some job) = ok (some job)

-- the critical section of `RunOnce` for an account that is not paused
unfoldable pub pick : String → Schedule → Result Error (Option Job) × Schedule
pick account s =
    let jobs = jobs_of s.jobs account in
    if is_empty jobs || s.in_flight account then (ok none, s) else (
      picked (item_at jobs (rem_index (s.pointer account) (length jobs))),
      record s {
        pointer = update s.pointer account (s.pointer account +ℤ pos 1);
        in_flight = update s.in_flight account true;
      },
    )

-- What `PollNow` does with a request: refuse it (false), queue it or start it (true).
pub data Poll : Type 0 where
  refused : Poll
  waiting : Poll
  started : Job → Poll

abbrev pub accepted : Poll → Bool
accepted refused = false
accepted _ = true

abbrev pub poll_job : Option Job → String → Schedule → Poll × Schedule
poll_job none id s = (refused, s)
poll_job (some job) id s =
    if s.in_flight job.account
    then (if s.queued id then (refused, s) else (
      waiting,
      record s {
        immediate = update s.immediate job.account (s.immediate job.account ++ id ∷ []);
        queued = update s.queued id true;
      },
    ))
    else (started job, record s { in_flight = update s.in_flight job.account true })

unfoldable pub poll_now : String → Schedule → Poll × Schedule
unfolding Dict.get
poll_now id s = poll_job (Dict.get s.by_id id) id s

-- an id taken off the queue of an account
abbrev pub popped : String → String → List String → Schedule → Schedule
popped account id rest s = record s {
  immediate = update s.immediate account rest;
  queued = update s.queued id false;
}

-- the loop of `nextImmediate` over `s.immediate[account]`
unfoldable pub drain : String → List String → Schedule → Option Job × Schedule
unfolding Dict.get
drain account [] s = (none, record s { immediate = update s.immediate account [] })
drain account (id ∷ rest) s = elim (Dict.get s.by_id id) [
  | some job ↦ (some job, popped account id rest s)
  | none ↦ drain account rest (popped account id rest s)
]

unfoldable pub next_immediate : String → Schedule → Option Job × Schedule
unfolding drain
next_immediate account s = drain account (s.immediate account) s

-- the loop of `finishAccount` over the ids that are discarded
unfoldable pub unqueue : List String → Map Bool → Map Bool
unqueue [] queued = queued
unqueue (id ∷ ids) queued = unqueue ids (update queued id false)

unfoldable pub finish_account : String → Bool → Schedule → Schedule
unfolding unqueue
finish_account account discard s =
    let t =
      if discard
      then record s {
        queued = unqueue (s.immediate account) s.queued;
        immediate = update s.immediate account [];
      }
      else s in
    record t { in_flight = update t.in_flight account false }
