-- ===== src/Commands/Desk.antt =====
-- What the handlers of commands.go work on: the database, the calls of the runtime's callbacks, and
-- what the dispatcher is configured with.
pub mod Frames
use uade_bot.Prelude.{
  ℕ, String, ◌==◌, Bool, true, false, Option, none, some, List, [], ◌∷◌, ◌++◌, if◌then◌else◌,
}
use uade_bot.Prelude.Int.{ℤ}
use uade_bot.Prelude.Exec.{Result, ok, err, panic, Exec}
use uade_bot.Scheduler.Types.{Error}
use uade_bot.SqlStore.Statements.{Database, Sql, Ciphertext, Tables, touch, committed}

-- OnJobCreated, OnJobsChanged and OnAccountActivated, with what they are called with
pub data Call : Type 0 where
  job_created : String → Call
  jobs_changed : Call
  account_activated : String → String → Call
  activation_started : String → Call  -- the goroutine of activateCredentials

pub record Desk : Type 0 where
  pub database : Database
  pub calls : List Call  -- the latest first

abbrev pub Action : Type 0 → Type 0
Action A = Exec Error Desk A

-- The styles of card.go, and the colour of `info` under another title; a modal is named by its custom id.
pub data Style : Type 0 where
  info success warning danger : Style
  titled : String → Style

pub data Reply : Type 0 where
  card : Style → String → Reply
  modal : String → Reply
  no_choices : Reply
  choices : List (String × String) → Reply

abbrev pub message : String → Reply
message text = card info text

pub record Credentials : Type 0 where
  pub username : String
  pub password : String
  pub start_url : String

pub record JobFilters : Type 0 where
  pub materia_codigo : String
  pub turno : String
  pub ofrecimiento : String
  pub dias : List String
  pub sedes_excluidas : List String

-- The fields of CommandDispatcher, and code of other packages that the handlers call: `seal` and
-- `unseal` are Encrypt and Decrypt of internal/crypto with the configured key, `resolve_materia` and
-- `prepare_account` go to the site, and while they wait other handlers may run; `decode` and `encode`
-- are the JSON of the filters. `now` is the clock, in milliseconds.
pub record Config : Type 0 where
  pub master_key : String
  pub super_admin_id : String
  pub on_job_created : Bool
  pub on_jobs_changed : Bool
  pub on_account_activated : Bool
  pub resolve_materia : Option (String → String → Action String)
  pub prepare_account : Option (String → Action Unit)
  pub seal : String → Credentials → Result Error Ciphertext
  pub unseal : String → Ciphertext → Result Error Credentials
  pub decode : String → JobFilters
  pub encode : JobFilters → String
  pub normalize : String → String
  pub valid_start_url : String → Bool
  pub now : ℤ

abbrev pub on_database : {A : Type 0} → Sql A → Action A
on_database m d = let (r, database) = m d.database in (r, record d { database = database })

-- a callback, if it is configured
abbrev pub call : Bool → Call → Action Unit
call configured c d = (ok tt, if configured then record d { calls = c ∷ d.calls } else d)

-- NULL for the empty text
abbrev pub nullable : String → Option String
nullable value = if value == "" then none else some value

-- A transaction that may find nothing to do, and then inserts a job. Where the insertion fails, the
-- transaction is rolled back and the caller goes on; a Commit that fails rolls nothing back.
pub data Inserted : Type 0 where
  skipped : Inserted
  rejected : Error → Inserted
  created : String → Inserted

abbrev pub inserted : Tables → Result Error String × Database → Result Error Inserted × Database
inserted before (ok id, d) = committed (created id) (touch d)
inserted before (err e, d) = (ok (rejected e), record d { tables = before })
inserted before (panic, d) = (panic, record d { tables = before })

abbrev pub prepared :
    Tables → Sql String → Result Error Bool × Database → Result Error Inserted × Database
prepared before insert (ok true, d) = inserted before (insert d)
prepared before insert (ok false, d) = (ok skipped, record d { tables = before })
prepared before insert (err e, d) = (err e, record d { tables = before })
prepared before insert (panic, d) = (panic, record d { tables = before })

abbrev pub opened :
    Sql Bool → Sql String → Tables → Result Error Unit × Database → Result Error Inserted × Database
opened prepare insert before (ok _, d) = prepared before insert (prepare d)
opened prepare insert before (err e, d) = (err e, d)
opened prepare insert before (panic, d) = (panic, d)

unfoldable pub insert_after : Sql Bool → Sql String → Sql Inserted
insert_after prepare insert d = opened prepare insert d.tables (touch d)
