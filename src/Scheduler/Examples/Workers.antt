-- ===== src/Scheduler/Examples/Workers.antt =====
-- Interleavings of the workers of one account, and a worker that runs alone.
use uade_bot.Prelude.{sym}
use uade_bot.Prelude.{ap}
use uade_bot.Prelude.{
  ◌≡◌, ◌++◌, refl, String, true, false, Option, none, some, List, [], ◌∷◌, arith,
}
use uade_bot.Prelude.Dict
use uade_bot.Prelude.Exec.{ok, panic}
use uade_bot.Scheduler.Types.{Job, Error, no_account_state, no_notification_state}
use uade_bot.Scheduler.Ports.{Ports, Host}
use uade_bot.Scheduler.Schedule.{
  Schedule, add, append_job, jobs_of, init, poll_now, pick, next_immediate, drain, rem_index,
  accepted,
}
use uade_bot.Scheduler.Threads.{
  Worker, System, idle, arriving, served, ending, adds, picks, cancels, stops, Reach, here, next,
}
use uade_bot.Scheduler.Threads.Accounting.{IsAccounted, Reach-IsAccounted, tally, serves}
use uade_bot.Scheduler.Threads.LostPoll.{poll_now-lost}
use uade_bot.Scheduler.Running.{Scheduler, Runner, run_account}
use uade_bot.Scheduler.Running.Draining.{OwnIds, run_account-drains}
use uade_bot.Scheduler.Examples.{first_job, second_job}
use uade_bot.Scheduler.Examples.Schedules.{both}

abbrev added : System
added = record idle { schedule = both }

abbrev after_pick : Schedule
after_pick = (pick "ana" both).1

picked_first : pick "ana" both ≡ (ok (some first_job), after_pick)
unfolding pick add append_job jobs_of rem_index Dict.put Dict.get Dict.has
picked_first = refl

abbrev worker : Worker
worker = record { first = "ana"; job = first_job; phase = ending }

abbrev after_drain : Schedule
after_drain = (next_immediate "ana" after_pick).1

none_waits : next_immediate "ana" after_pick ≡ (none, after_drain)
unfolding next_immediate drain pick add append_job jobs_of rem_index Dict.put Dict.get Dict.has
none_waits = refl

-- the worker of `first_job` has found its queue empty
abbrev at_end : System
at_end = record { schedule = after_drain; workers = worker ∷ []; tokens = 0 }

reached : Reach 3 idle at_end
reached =
    next
      (next
        (next (next (next here (adds first_job)) (adds second_job))
          (picks "ana" first_job after_pick picked_first))
        (cancels [] [] (record worker { phase = arriving }) refl refl))
      (stops [] [] (record worker { phase = served }) after_drain refl refl none_waits)

Reach-IsAccounted_example : IsAccounted 3 at_end
Reach-IsAccounted_example = Reach-IsAccounted reached

known : Dict.get at_end.schedule.by_id "2" ≡ some second_job
unfolding next_immediate drain pick add append_job jobs_of rem_index Dict.put Dict.get Dict.has
known = refl

fresh : at_end.schedule.queued "2" ≡ false
unfolding next_immediate drain pick add append_job jobs_of rem_index Dict.put Dict.get Dict.has
fresh = refl

poll_now-lost_example :
    (accepted (poll_now "2" at_end.schedule).0 ≡ true)
    × ((t : System) × Reach 3 idle t
        × (tally (serves "ana") t.workers ≡ 0)
        × (t.schedule.in_flight "ana" ≡ false)
        × (t.schedule.immediate "ana" ≡ at_end.schedule.immediate "ana" ++ "2" ∷ [])
        × (t.schedule.queued "2" ≡ true))
poll_now-lost_example =
    poll_now-lost at_end reached [] [] worker refl refl "2" second_job known refl fresh

-- a scheduler without store and notifier, the jobs of which panic
abbrev ports : Ports Unit
ports = record { store = none; notifier = none; now = λ _. 7; digest = λ _. "" }

abbrev runner : Runner Unit
runner = record { run = λ job w. (panic, w); admitted = λ _. true }

abbrev waiting_host : Host Unit
waiting_host = record {
  memory = λ _. no_account_state;
  notify_mem = λ _. no_notification_state;
  world = tt;
}

abbrev one_waits : Scheduler Unit
one_waits = record {
  schedule = record init {
    by_id = ("2", second_job) ∷ [];
    immediate = λ _. "2" ∷ [];
    in_flight = λ _. true;
  };
  host = waiting_host;
}

own_ids : OwnIds one_waits.schedule.by_id "ana" ("2" ∷ [])
unfolding Dict.get
own_ids = ((λ job e. sym (ap of_account e)), tt)
  where
    of_account : Option Job → String
    of_account none = "ana"
    of_account (some job) = job.account

run_account-drains_example :
    (es : List Error) × (t : Scheduler Unit) × (run_account ports runner 2 first_job one_waits
      ≡ some (es, t))
    × (t.schedule.immediate "ana" ≡ [])
    × (t.schedule.in_flight "ana" ≡ false)
run_account-drains_example =
    run_account-drains ports runner 2 first_job one_waits (omega arith) own_ids
