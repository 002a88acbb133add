-- ===== src/Scheduler/Ports.antt =====
-- What the scheduler calls through: the interfaces `Store`, `Notifier` and `Clock` of scheduler.go,
-- over a world `W` that their implementations change, and the scheduler's own state that outcomes
-- write where no store is configured.
use uade_bot.Prelude.{ℕ, String, Option, List, Map}
use uade_bot.Prelude.Exec.{Exec}
use uade_bot.Scheduler.Types.{
  Outcome, PersistedJob, AccountState, NotificationState, NotificationFragment, Event, Error,
}

abbrev pub Act : Type 0 → Type 0 → Type 0
Act W A = Exec Error W A

pub record Store (W : Type 0) : Type 0 where
  pub active_jobs : Act W (List PersistedJob)
  pub account_state : String → Act W AccountState
  pub save_account_state : String → AccountState → Act W Unit
  pub notification_state : String → Act W NotificationState
  pub save_notification_state : String → NotificationState → Act W Unit
  pub delivered_notification_fragments : String → String → Act W (List NotificationFragment)
  pub mark_notification_fragment_delivered : String → String → NotificationFragment → Act W Unit
  pub commit_notification_delivery : String → String → NotificationState → Act W Unit
  pub save_outcome : String → Outcome → ℕ → Act W Unit
  pub mark_pause_notification : String → String → Act W Unit

-- `digest` is sha256 in hexadecimal, of the standard library; `now` is the clock's reading.
pub record Ports (W : Type 0) : Type 0 where
  pub store : Option (Store W)
  pub notifier : Option (Event → Act W Unit)
  pub now : W → ℕ
  pub digest : List ℕ → String

-- `memory` and `notify_mem` of the `Scheduler`, and the world.
pub record Host (W : Type 0) : Type 0 where
  pub memory : Map AccountState
  pub notify_mem : Map NotificationState
  pub world : W
