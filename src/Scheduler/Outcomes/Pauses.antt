-- ===== src/Scheduler/Outcomes/Pauses.antt =====
-- Announcements of a paused account, where the scheduler keeps its state in memory.
use uade_bot.Prelude.Exec.{Exec}
use uade_bot.Prelude.{ℕ, ◌≡◌, String, true, none, some, List, [], ◌∷◌, update}
use uade_bot.Prelude.Exec.{pure, ◌>>◌}
use uade_bot.Scheduler.Types.{Job, Outcome, AccountState, Event, Error}
use uade_bot.Scheduler.Backoff.{signal_for, next_backoff}
use uade_bot.Scheduler.Ports.{Act, Ports, Host}
use uade_bot.Scheduler.Outcomes.{handle_outcome, announced, no_outcome}

-- the reason with which a code pauses an account that is announced
pub data Announces : String → String → Type 0 where
  credentials : Announces "invalid_credentials" "needs_credentials"
  stale : Announces "stale_start_url" "needs_new_start_url"
  closed : Announces "inscripciones_cerradas" "inscripciones_cerradas"

abbrev pub pause_event : Job → String → Event
pause_event job reason = record {
  kind = "account_pause";
  job = job;
  outcome = record no_outcome { code = reason };
  reason = reason;
  delivery_key = "";
}

-- What a poll with such a code makes of the account's state.
record Paused (code reason : String) (s : AccountState) (now : ℕ) : Type 0 where
  next : AccountState
  steps : next_backoff s (signal_for code) now ≡ some next
  named : next.reason ≡ reason
  kept : next.last_pause_notified_reason ≡ s.last_pause_notified_reason
  said : announced reason ≡ true

module _ {W : Type 0} (now : W → ℕ) (digest : List ℕ → String) (n : Event → Act W Unit) where
  -- a scheduler with a notifier and without a store
  abbrev pub in_memory : Ports W
  in_memory = record { store = none; notifier = some n; now = now; digest = digest }

  -- the host after a pause was announced
  abbrev announced_host : Job → AccountState → Host W → W → Host W
  announced_host job next h w = record h {
    memory =
        update (update h.memory job.account next) job.account
          (record (update h.memory job.account next job.account) {
            last_pause_notified_reason = next.reason;
          });
    world = w;
  }

  -- the outcomes of a job, one after the other
  pub handle_all : Job → List Outcome → Exec Error (Host W) Unit
  handle_all job [] = pure tt
  handle_all job (o ∷ os) = do handle_outcome in_memory job o; handle_all job os
