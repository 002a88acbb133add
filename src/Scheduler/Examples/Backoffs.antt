-- ===== src/Scheduler/Examples/Backoffs.antt =====
-- Runs of internal/scheduler on small inputs, and the theorems at them.
use mathlib.Core.Option
use uade_bot.Prelude.{ℕ, ◌≡◌, true, some, List, [], ◌∷◌, arith}
use uade_bot.Scheduler.Types.{no_account_state}
use uade_bot.Scheduler.Backoff.{signal_for, next_backoff, is_paused}
use uade_bot.Scheduler.Backoff.Schedule.{
  rate_limits, limited, rate_limits-limited_delay, is_paused-next_backoff,
}

abbrev five : List ℕ
five = 10 ∷ 20 ∷ 30 ∷ 40 ∷ 50 ∷ []

rate_limits-limited_delay_example : rate_limits no_account_state five ≡ some (limited 5 50 "")
rate_limits-limited_delay_example =
    rate_limits-limited_delay no_account_state 10 (20 ∷ 30 ∷ 40 ∷ 50 ∷ []) (λ e. cc) (omega arith)

is_paused-next_backoff_example :
    Option.map
      (λ t. is_paused t 100)
      (next_backoff (limited 2 50 "") (signal_for "inscripciones_cerradas") 60)
    ≡ some true
is_paused-next_backoff_example =
    is_paused-next_backoff (limited 2 50 "") "inscripciones_cerradas" 60 100 (λ e. cc)
