-- ===== src/Scheduler/Types.antt =====
-- The types of internal/scheduler/scheduler.go. A `time.Time` is the count of nanoseconds since
-- its zero value, so `IsZero` is a test for 0, and a `time.Duration` a count of nanoseconds.
use uade_bot.Prelude.{ℕ, ◌*◌, String, Bool, List}
use uade_bot.Prelude.Int.{ℤ, pos}

pub record Vacancy : Type 0 where
  pub materia : String
  pub turno : String
  pub sede : String
  pub horario : String
  pub dias : List String
  pub cupos : ℤ

pub record Outcome : Type 0 where
  pub code : String
  pub vacancies : List Vacancy
  pub materia_codigo : String
  pub materia_nombre : String

-- `runnable` is `job.Run != nil`; what a run returns is given where the job is run.
pub record Job : Type 0 where
  pub account : String
  pub id : String
  pub channel : String
  pub materia_codigo : String
  pub label : String
  pub runnable : Bool

pub record PersistedJob : Type 0 where
  pub account : String
  pub id : String
  pub channel : String

pub record AccountState : Type 0 where
  pub reason : String
  pub pause_until : ℕ
  pub backoff_attempt : ℤ
  pub last_pause_notified_reason : String

pub record NotificationState : Type 0 where
  pub vacancy_key : String
  pub max_cupos : ℤ

pub record NotificationFragment : Type 0 where
  pub route : String
  pub fragment_index : ℤ
  pub fragment_count : ℤ
  pub fragment_fingerprint : String
  pub delivered_at : ℕ

-- AccountState{} and NotificationState{}
abbrev pub no_account_state : AccountState
no_account_state = record {
  reason = "";
  pause_until = 0;
  backoff_attempt = pos 0;
  last_pause_notified_reason = "";
}

abbrev pub no_notification_state : NotificationState
no_notification_state = record { vacancy_key = ""; max_cupos = pos 0 }

-- The errors that the package returns. `external` is one of the store, the notifier or a run.
pub data Error : Type 0 where
  external : String → Error
  cancelled : Error
  outcome_failed : String → Error → Error
  run_panic : String → Error
  pipeline_panic : String → Error
  account_panic : String → Error
  notifier_required : Error
  store_required : Error
  invalid_job : String → Error
  build_failed : String → Error → Error

pub record Event : Type 0 where
  pub kind : String
  pub job : Job
  pub outcome : Outcome
  pub reason : String
  pub delivery_key : String

abbrev pub second : ℕ
second = 1_000_000_000

abbrev pub minute : ℕ
minute = 60 * second

abbrev pub hour : ℕ
hour = 60 * minute
