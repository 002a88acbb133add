-- ===== src/Scheduler/Threads.antt =====
-- The goroutines of the scheduler, interleaved: every step is what one goroutine does while it
-- holds `mu`, or one operation on the semaphore `sem`. A worker is a call of `runAccount`.
pub mod Accounting
pub mod LostPoll
use uade_bot.Prelude.{
  ℕ, ◌+◌, ◌-◌, ◌<◌, ◌≡◌, String, Bool, true, false, Option, none, some, List, [], ◌∷◌, ◌++◌, refl,
}
use uade_bot.Prelude.Dict.{Dict}
use uade_bot.Prelude.Exec.{ok}
use uade_bot.Scheduler.Types.{Job, PersistedJob}
use uade_bot.Scheduler.Schedule.{
  Schedule, init, add, apply_desired, pick, Poll, refused, waiting, started, poll_now,
  next_immediate, finish_account,
}

-- Where a worker stands: before the semaphore, between it and the end of the job's pipeline, before
-- `nextImmediate`, and between an empty `nextImmediate` and `finishAccount`.
pub data Phase : Type 0 where
  arriving : Phase
  running : Phase
  served : Phase
  ending : Phase

pub record Worker : Type 0 where
  pub first : String  -- first.Account
  pub job : Job
  pub phase : Phase

-- `tokens` is `len(s.sem)`.
pub record System : Type 0 where
  pub schedule : Schedule
  pub workers : List Worker
  pub tokens : ℕ

abbrev pub idle : System
idle = record { schedule = init; workers = []; tokens = 0 }

abbrev pub start : Job → List Worker → List Worker
start job ws = record { first = job.account; job = job; phase = arriving } ∷ ws

-- `limit` is the capacity of `sem`.
pub data Step (limit : ℕ) (s : System) : System → Type 0 where
  -- Add, and the locked part of Reconcile
  adds : (job : Job) → Step limit s (record s { schedule = (add job s.schedule).1 })
  reconciles :
      (desired : Dict Job) (records : List PersistedJob)
      → Step limit s (record s { schedule = (apply_desired desired records s.schedule).1 })
  -- RunOnce takes the next job of an account. Its worker counts from here on, though RunOnce starts
  -- the goroutine once it has gone through all accounts; a panic in between is no step.
  picks :
      (account : String) (job : Job) (after : Schedule)
      → pick account s.schedule ≡ (ok (some job), after)
      → Step limit s (record s { schedule = after; workers = start job s.workers })
  -- PollNow starts a job, or leaves no new worker behind
  starts :
      (id : String) (job : Job) (after : Schedule)
      → poll_now id s.schedule ≡ (started job, after)
      → Step limit s (record s { schedule = after; workers = start job s.workers })
  queues :
      (id : String) (after : Schedule)
      → poll_now id s.schedule ≡ (waiting, after)
      → Step limit s (record s { schedule = after })
  -- the `select` of runJobPipelineSafely: a token, or the context is done
  acquires :
      (before after : List Worker) (w : Worker)
      → s.workers ≡ before ++ w ∷ after
      → w.phase ≡ arriving
      → s.tokens < limit
      → Step limit s (record s {
        workers = before ++ record w { phase = running } ∷ after;
        tokens = s.tokens + 1;
      })
  cancels :
      (before after : List Worker) (w : Worker)
      → s.workers ≡ before ++ w ∷ after
      → w.phase ≡ arriving
      → Step limit s (record s { workers = before ++ record w { phase = served } ∷ after })
  -- the pipeline ends, however it ends, and gives the token back
  releases :
      (before after : List Worker) (w : Worker)
      → s.workers ≡ before ++ w ∷ after
      → w.phase ≡ running
      → Step limit s (record s {
        workers = before ++ record w { phase = served } ∷ after;
        tokens = s.tokens - 1;
      })
  -- nextImmediate hands out a job, or none
  continues :
      (before after : List Worker) (w : Worker) (job : Job) (next : Schedule)
      → s.workers ≡ before ++ w ∷ after
      → w.phase ≡ served
      → next_immediate w.job.account s.schedule ≡ (some job, next)
      → Step limit s (record s {
        schedule = next;
        workers = before ++ record w { job = job; phase = arriving } ∷ after;
      })
  stops :
      (before after : List Worker) (w : Worker) (next : Schedule)
      → s.workers ≡ before ++ w ∷ after
      → w.phase ≡ served
      → next_immediate w.job.account s.schedule ≡ (none, next)
      → Step limit s
          (record s { schedule = next; workers = before ++ record w { phase = ending } ∷ after })
  -- finishAccount at the end, and after a panic outside the pipeline
  finishes :
      (before after : List Worker) (w : Worker)
      → s.workers ≡ before ++ w ∷ after
      → w.phase ≡ ending
      → Step limit s (record s {
        schedule = finish_account w.first false s.schedule;
        workers = before ++ after;
      })
  crashes :
      (before after : List Worker) (w : Worker)
      → s.workers ≡ before ++ w ∷ after
      → w.phase ≡ served
      → Step limit s (record s {
        schedule = finish_account w.first true s.schedule;
        workers = before ++ after;
      })

pub data Reach (limit : ℕ) (s : System) : System → Type 0 where
  here : Reach limit s s
  next : {t u : System} → Reach limit s t → Step limit t u → Reach limit s u
