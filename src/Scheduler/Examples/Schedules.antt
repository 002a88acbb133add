-- ===== src/Scheduler/Examples/Schedules.antt =====
-- A schedule of two jobs of one account.
use uade_bot.Prelude.{
  ℕ, ◌≡◌, ◌&&◌, not, if◌then◌else◌, refl, false, some, none, List, [], ◌∷◌, ◌+◌, ◌%◌, arith,
  get_elem?,
}
use uade_bot.Prelude.Dict
use uade_bot.Prelude.Exec.{Result, ok}
use uade_bot.Scheduler.Types.{Job, PersistedJob, Error}
use uade_bot.Scheduler.Schedule.{
  Schedule, init, add, jobs_of, append_job, desired_jobs, apply_desired,
}
use uade_bot.Scheduler.Schedule.RoundRobin.{IsAt, turns, clear, clear_ticks, turns-get_elem?}
use uade_bot.Scheduler.Ports.{Ports, Host}
use uade_bot.Scheduler.Outcomes.{account_paused, account_state}
use uade_bot.Scheduler.Backoff.{is_paused}
use uade_bot.Scheduler.Types.{no_account_state, no_notification_state}
use uade_bot.Scheduler.Schedule.Reconciling.{reconciled-exact}
use uade_bot.Scheduler.Examples.{first_job, second_job}

abbrev pub both : Schedule
both = (add second_job (add first_job init).1).1

both-IsAt : IsAt "ana" (first_job ∷ second_job ∷ []) 0 both
unfolding add append_job jobs_of Dict.put Dict.get Dict.has
both-IsAt = record { listed = refl; free = refl; turn = refl }

-- a scheduler without a store, whose world is the clock
abbrev ports : Ports ℕ
ports = record { store = none; notifier = none; now = λ w. w; digest = λ bytes. "" }

abbrev resting : Host ℕ
resting = record {
  memory = λ account. no_account_state;
  notify_mem = λ id. no_notification_state;
  world = 5;
}

-- the account was limited until 10
abbrev limited : Host ℕ
limited = record resting {
  memory = λ account. record no_account_state { reason = "rate_limited"; pause_until = 10 };
}

abbrev ticks : List (Host ℕ)
ticks = resting ∷ limited ∷ resting ∷ []

before_last : clear_ticks ports "ana" (resting ∷ limited ∷ []) ≡ 1
unfolding clear_ticks clear account_paused account_state is_paused
before_last = refl

turns-get_elem?_example :
    get_elem? (turns ports "ana" ticks both) 2
    ≡ some (
        if clear ports "ana" resting
        then get_elem?
            (first_job ∷ second_job ∷ [])
            ((0 + clear_ticks ports "ana" (resting ∷ limited ∷ [])) % 2)
        else none)
turns-get_elem?_example =
    turns-get_elem? ports "ana" (resting ∷ limited ∷ []) resting [] first_job (second_job ∷ []) 0
      both both-IsAt (omega (arith, before_last))

abbrev row : PersistedJob
row = record { account = "ana"; id = "2"; channel = "c" }

abbrev factory : PersistedJob → Result Error Job
factory r = ok (record first_job { account = r.account; id = r.id; channel = r.channel })

abbrev wanted : Dict.Dict Job
wanted = ("2", second_job) ∷ []

built : desired_jobs factory (row ∷ []) [] ≡ ok wanted
unfolding desired_jobs Dict.put
built = refl

reconciled-exact_example :
    (Dict.get (apply_desired wanted (row ∷ []) both).1.by_id "1" ≡ Dict.get wanted "1")
    × ((apply_desired wanted (row ∷ []) both).1.queued "1"
        ≡ (if Dict.has both.by_id "1" && not (Dict.has wanted "1") then false else both.queued "1"))
reconciled-exact_example = reconciled-exact factory (row ∷ []) wanted both "1" built
