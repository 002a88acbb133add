-- ===== src/Scheduler/Backoff/Schedule.antt =====
-- The backoff of rate-limited accounts, and which outcomes pause an account for how long.
use uade_bot.Prelude.{
  ℕ, zero, suc, ◌+◌, ◌*◌, ◌<◌, String, ◌==◌, ◌≡◌, ◌≢◌, refl, ap, ◌∙◌, ==-false, text-cases, Bool,
  true, false, arith, List, [], ◌∷◌, ltb, if◌then◌else◌, inl, inr, length, ◌||◌,
}
use mathlib.Core.Option
use mathlib.Core.Option.{Option, none, some}
use uade_bot.Prelude.Int.{pos, two63, +ℤ-pos, suc-+ℤ-minus_one}
use uade_bot.Scheduler.Types.{AccountState, minute, hour}
use uade_bot.Scheduler.Backoff.{
  signal_for, next_backoff, next_attempt, rate_limit, is_paused, backoff_delay,
}

-- The polls in a row that UADE rate limits, at the given times; `none` is a panic.
pub rate_limits : AccountState → List ℕ → Option AccountState
rate_limits s [] = some s
rate_limits s (now ∷ rest) = elim (next_backoff s (signal_for "rate_limited") now) [
  | none ↦ none
  | some t ↦ rate_limits t rest
]

-- the delay before the retry after `n` rate limits in a row
abbrev pub delay_after : ℕ → ℕ
delay_after zero = 0
delay_after (suc zero) = minute
delay_after (suc (suc zero)) = 2 * minute
delay_after (suc (suc (suc zero))) = 5 * minute
delay_after (suc (suc (suc (suc n)))) = 15 * minute

-- The state of an account after `n` rate limits in a row, the last one at `now`.
abbrev pub limited : ℕ → ℕ → String → AccountState
limited n now last = record {
  reason = "rate_limited";
  pause_until = now + delay_after n;
  backoff_attempt = pos n;
  last_pause_notified_reason = last;
}

backoff_delay_lem : (n : ℕ) → backoff_delay (pos n) ≡ some (delay_after (suc n))
backoff_delay_lem zero = refl
backoff_delay_lem (suc zero) = refl
backoff_delay_lem (suc (suc zero)) = refl
backoff_delay_lem (suc (suc (suc n))) = ground arith

rate_limit-at :
    (s : AccountState) (n now : ℕ)
    → next_attempt s ≡ pos (suc n)
    → suc n < two63
    → rate_limit s now ≡ some (limited (suc n) now s.last_pause_notified_reason)
unfolding rate_limit
rate_limit-at s n now e h = rw (e, suc-+ℤ-minus_one n h, backoff_delay_lem n) refl

rate_limit-first :
    (s : AccountState) (now : ℕ)
    → (s.reason == "rate_limited") ≡ false
    → rate_limit s now ≡ some (limited 1 now s.last_pause_notified_reason)
rate_limit-first s now h = rate_limit-at s 0 now (unfold next_attempt in rw h) (omega arith)

rate_limit-next :
    (n now later : ℕ) (last : String)
    → suc n < two63
    → rate_limit (limited n now last) later ≡ some (limited (suc n) later last)
rate_limit-next n now later last h =
    rate_limit-at (limited n now last) n later
      (unfold next_attempt in +ℤ-pos n 1 (omega arith) ∙ ap pos (omega arith)) h

-- the time of the last of `now` and those that follow
abbrev pub last_time : ℕ → List ℕ → ℕ
last_time now [] = now
last_time now (t ∷ ts) = last_time t ts

next_backoff-limit :
    (s : AccountState) (now : ℕ) → next_backoff s (signal_for "rate_limited") now ≡ rate_limit s now
unfolding next_backoff signal_for
next_backoff-limit s now = refl

rate_limits-step :
    (s t : AccountState) (now : ℕ) (rest : List ℕ)
    → rate_limit s now ≡ some t
    → rate_limits s (now ∷ rest) ≡ rate_limits t rest
unfolding rate_limits
rate_limits-step s t now rest h = rw (next_backoff-limit s now ∙ h, rate_limits) refl

rate_limits-limited :
    (n now : ℕ) (last : String) (times : List ℕ)
    → n + length times < two63
    → rate_limits (limited n now last) times
      ≡ some (limited (n + length times) (last_time now times) last)
unfolding rate_limits
rate_limits-limited n now last [] h = ap some (ap (λ k. limited k now last) (omega arith))
rate_limits-limited n now last (t ∷ ts) h =
    rw (rate_limits-step _ _ t ts (rate_limit-next n now t last (omega arith))) (
      rate_limits-limited (suc n) t last ts (omega arith)
      ∙ ap some (ap (λ k. limited k (last_time t ts) last) (omega arith)))

-- An account that was not rate limited, after any number (below 2^63) of rate-limited polls in a
-- row, the last of them at `t`, is paused until `t` plus 1, 2, 5, 15, 15, ... minutes; the attempt
-- is the number of polls, no step panics, and what was last announced stays.
pub rate_limits-limited_delay :
    (s : AccountState) (now : ℕ) (times : List ℕ)
    → s.reason ≢ "rate_limited"
    → suc (length times) < two63
    → rate_limits s (now ∷ times)
      ≡ some (limited (suc (length times)) (last_time now times) s.last_pause_notified_reason)
rate_limits-limited_delay s now times h k =
    rw
      (rate_limits-step _ _ now times (rate_limit-first s now (==-false s.reason "rate_limited" h)))
      (rate_limits-limited 1 now s.last_pause_notified_reason times (omega arith)
        ∙ ap some
            (ap (λ k. limited k (last_time now times) s.last_pause_notified_reason) (omega arith)))

-- whether an account is parked at `later` by a poll with this code that ended at `now`
abbrev pub parked : String → ℕ → ℕ → Bool
parked code now later =
    if code == "invalid_credentials" || code == "stale_start_url"
    then true
    else if code == "inscripciones_cerradas"
    then ltb later (now + 6 * hour)
    else false

signal_for-success :
    (code : String)
    → (code == "invalid_credentials") ≡ false
    → (code == "stale_start_url") ≡ false
    → (code == "inscripciones_cerradas") ≡ false
    → code ≢ "rate_limited"
    → signal_for code ≡ "success"
unfolding signal_for
signal_for-success code e₁ e₂ e₃ h = rw (e₁, ==-false code "rate_limited" h, e₂, e₃) refl

-- Whatever the account's state was: after a poll that was not rate limited, the account is paused
-- for good by bad credentials and by a stale link, for exactly six hours by closed enrollment, and
-- by no other code; the step never panics.
pub is_paused-next_backoff :
    (s : AccountState) (code : String) (now later : ℕ)
    → code ≢ "rate_limited"
    → Option.map (λ t. is_paused t later) (next_backoff s (signal_for code) now)
      ≡ some (parked code now later)
unfolding next_backoff is_paused signal_for
is_paused-next_backoff s code now later h = elim (text-cases code "invalid_credentials") [
  | inl e ↦ rw e refl
  | inr e₁ ↦ elim (text-cases code "stale_start_url") [
    | inl e ↦ rw e refl
    | inr e₂ ↦ elim (text-cases code "inscripciones_cerradas") [
      | inl e ↦ rw e (ground arith)
      | inr e₃ ↦ rw (signal_for-success code e₁ e₂ e₃ h, e₁, e₂, e₃) refl
    ]
  ]
]
