-- ===== src/Scheduler/Backoff.antt =====
-- What an outcome does to an account: `signalFor`, `NextBackoff` and the test of `accountPaused`.
pub mod Schedule
use uade_bot.Prelude.{
  ℕ, ◌+◌, ◌*◌, String, ◌==◌, Bool, true, false, ◌&&◌, ◌||◌, not, Option, none, some, List, [], ◌∷◌,
  leb, ltb, eqb, if◌then◌else◌, get_elem?,
}
use uade_bot.Prelude.Int.{ℤ, pos, negsuc, ◌+ℤ◌}
use uade_bot.Prelude.Exec.{Result, ok, err, panic}
use uade_bot.Scheduler.Types.{AccountState, no_account_state, minute, hour}

unfoldable pub signal_for : String → String
signal_for code =
    if code == "invalid_credentials"
      || (code == "rate_limited" || (code == "stale_start_url" || code == "inscripciones_cerradas"))
    then code
    else "success"

abbrev pub backoff_sequence : List ℕ
backoff_sequence = minute ∷ (2 * minute) ∷ (5 * minute) ∷ (15 * minute) ∷ []

abbrev pub closed_enrollment_retry : ℕ
closed_enrollment_retry = 6 * hour

-- backoffSequence[index], where an index past the end has been set to the last one
abbrev pub backoff_delay : ℤ → Option ℕ
backoff_delay (pos i) = get_elem? backoff_sequence (if leb 4 i then 3 else i)
backoff_delay (negsuc _) = none

unfoldable pub next_attempt : AccountState → ℤ
next_attempt current =
    if current.reason == "rate_limited" then current.backoff_attempt +ℤ pos 1 else pos 1

-- the rest of the `rate_limited` case, `none` is the panic of an index out of range
abbrev pub pause_for : AccountState → ℕ → ℤ → Option ℕ → Option AccountState
pause_for current now attempt none = none
pause_for current now attempt (some delay) = some (record {
  reason = "rate_limited";
  pause_until = now + delay;
  backoff_attempt = attempt;
  last_pause_notified_reason = current.last_pause_notified_reason;
})

unfoldable pub rate_limit : AccountState → ℕ → Option AccountState
unfolding next_attempt
rate_limit current now =
    let attempt = next_attempt current in
    pause_for current now attempt (backoff_delay (attempt +ℤ negsuc 0))

unfoldable pub next_backoff : AccountState → String → ℕ → Option AccountState
next_backoff current signal now =
    if signal == "invalid_credentials"
    then some (record no_account_state {
      reason = "needs_credentials";
      last_pause_notified_reason = current.last_pause_notified_reason;
    })
    else if signal == "stale_start_url"
    then some (record no_account_state {
      reason = "needs_new_start_url";
      last_pause_notified_reason = current.last_pause_notified_reason;
    })
    else if signal == "inscripciones_cerradas"
    then some (record no_account_state {
      reason = "inscripciones_cerradas";
      pause_until = now + closed_enrollment_retry;
      last_pause_notified_reason = current.last_pause_notified_reason;
    })
    else if signal == "rate_limited"
    then rate_limit current now
    else some no_account_state

-- the test of `accountPaused`: a pause without an end, or one that ends after `now`
unfoldable pub is_paused : AccountState → ℕ → Bool
is_paused state now =
    if state.reason == "" then false else eqb state.pause_until 0 || ltb now state.pause_until
