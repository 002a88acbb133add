-- ===== src/Scheduler/Threads/LostPoll.antt =====
-- A poll that `PollNow` accepts between an empty `nextImmediate` and `finishAccount`.
use uade_bot.Scheduler.Threads.Accounting.{flag}
use uade_bot.Scheduler.Threads.Accounting.{tally-at}
use uade_bot.Prelude.{
  ℕ, ◌≡◌, refl, sym, ap, ◌∙◌, String, true, false, some, List, [], ◌∷◌, ◌++◌, arith, update,
  eq_refl,
}
use mathlib.Core.Path.{subst}
use uade_bot.Prelude.{update_self}
use uade_bot.Prelude.Dict
use uade_bot.Scheduler.Types.{Job}
use uade_bot.Scheduler.Schedule.{Schedule, poll_now, accepted, waiting, finish_account}
use uade_bot.Scheduler.Threads.{Worker, System, ending, queues, finishes, Reach, idle, next}
use uade_bot.Scheduler.Threads.Accounting.{tally, serves, IsAccounted, Reach-IsAccounted}

-- the schedule in which the id waits
abbrev queue : Schedule → String → String → Schedule
queue s account id = record s {
  immediate = update s.immediate account (s.immediate account ++ id ∷ []);
  queued = update s.queued id true;
}

poll_now-busy :
    (s : Schedule) (id : String) (job : Job)
    → Dict.get s.by_id id ≡ some job
    → s.in_flight job.account ≡ true
    → s.queued id ≡ false
    → poll_now id s ≡ (waiting, queue s job.account id)
unfolding poll_now
poll_now-busy s id job known busy fresh = rw (known, poll_now, busy, fresh) refl

-- an account with a worker is in flight
served-in_flight :
    {limit : ℕ} (s : System) (before after : List Worker) (w : Worker)
    → IsAccounted limit s
    → s.workers ≡ before ++ w ∷ after
    → s.schedule.in_flight w.first ≡ true
served-in_flight s before after w h p = ground (
  arith,
  eq_refl w.first,
  h.one_worker w.first,
  tally-at (serves w.first) before after w,
  ap (tally (serves w.first)) p,
)

-- In a reachable state let a worker of the job's account have found its queue empty, and let the
-- job be scheduled and not queued. Then `PollNow` accepts it, and steps lead to a state in which
-- the account has no worker and is not in flight, while the id stands in the account's queue and
-- is marked as queued.
pub poll_now-lost :
    {limit : ℕ} (s : System)
    → Reach limit idle s
    → (before after : List Worker) (w : Worker) → s.workers ≡ before ++ w ∷ after
    → w.phase ≡ ending
    → (id : String) (job : Job) → Dict.get s.schedule.by_id id ≡ some job
    → job.account ≡ w.first
    → s.schedule.queued id ≡ false
    → (accepted (poll_now id s.schedule).0 ≡ true)
      × ((t : System) × Reach limit idle t
          × (tally (serves job.account) t.workers ≡ 0)
          × (t.schedule.in_flight job.account ≡ false)
          × (t.schedule.immediate job.account ≡ s.schedule.immediate job.account ++ id ∷ [])
          × (t.schedule.queued id ≡ true))
unfolding finish_account
poll_now-lost {limit} s r before after w p ended id job known mine fresh =
    let busy : s.schedule.in_flight job.account ≡ true =
      subst (λ a. s.schedule.in_flight a ≡ true) (sym mine)
        (served-in_flight s before after w (Reach-IsAccounted r) p) in
    let polled = poll_now-busy s.schedule id job known busy fresh in
    let mid : System = record s { schedule = queue s.schedule job.account id } in
    let t : System = record mid {
      schedule = finish_account w.first false mid.schedule;
      workers = before ++ after;
    } in
    let reached : Reach limit idle t =
      next (next r (queues id (queue s.schedule job.account id) polled))
        (finishes before after w p ended) in
    let free : t.schedule.in_flight job.account ≡ false =
      subst (λ a. update s.schedule.in_flight w.first false a ≡ false) (sym mine)
        (update_self s.schedule.in_flight w.first false) in
    (
      rw polled refl,
      (
        t,
        reached,
        (Reach-IsAccounted reached).one_worker job.account ∙ ap flag free,
        free,
        update_self s.schedule.immediate job.account (s.schedule.immediate job.account ++ id ∷ []),
        update_self s.schedule.queued id true,
      ),
    )
