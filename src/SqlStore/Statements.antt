-- ===== src/SqlStore/Statements.antt =====
-- The tables of internal/store, with the columns that code reads, and the statements on them. Each
-- statement may fail, as a script of faults says. A transaction that fails before its Commit is
-- rolled back. After a Commit that fails the deferred Rollback does nothing, so what was written
-- stays in the open transaction of the connection, which is the only one of the pool, and is what
-- the later statements read; that the next BeginTx fails there is for the script to say.
use uade_bot.Prelude.{
  ℕ, suc, ◌+◌, ◌-◌, ◌*◌, ◌/◌, String, ◌==◌, Bool, true, false, ◌&&◌, Option, none, some, List, [],
  ◌∷◌, if◌then◌else◌, leb,
}
use uade_bot.Prelude.Int.{ℤ, pos, negsuc, eqz}
use uade_bot.Prelude.Exec.{Result, ok, err, panic, Exec}
use uade_bot.Scheduler.Types.{Error, external}

pub record UserRow : Type 0 where
  pub discord_user_id : String
  pub pause_reason : Option String
  pub pause_until : Option ℤ
  pub backoff_attempt : ℤ
  pub last_pause_notified_reason : Option String

-- `id` is the number in decimal, as the callers pass it.
pub record JobRow : Type 0 where
  pub id : String
  pub discord_user_id : String
  pub filtros_json : String
  pub materia_code : Option String
  pub channel_id : Option String
  pub guild_id : Option String
  pub label : Option String
  pub status : String
  pub last_polled_at : Option ℤ
  pub last_outcome : Option String
  pub last_notified_state : Option String
  pub last_notified_cupos : Option ℤ

pub record ProgressRow : Type 0 where
  pub job_id : String
  pub delivery_fingerprint : String
  pub route : String
  pub fragment_index : ℤ
  pub fragment_count : ℤ
  pub fragment_fingerprint : String
  pub delivered_at : ℤ

pub record MateriaRow : Type 0 where
  pub codigo : String
  pub nombre : String
  pub updated_at : ℤ

pub record HistoryRow : Type 0 where
  pub job_id : String
  pub recorded_at : ℤ
  pub outcome_code : String
  pub vacancy_count : Option ℤ
  pub total_cupos : Option ℤ

-- the three columns of an encrypted record
pub record Ciphertext : Type 0 where
  pub ciphertext : String
  pub iv : String
  pub auth_tag : String

pub record CredentialsRow : Type 0 where
  pub discord_user_id : String
  pub secret : Ciphertext

pub record PendingRow : Type 0 where
  pub discord_user_id : String
  pub filtros_json : String
  pub channel_id : Option String
  pub guild_id : Option String
  pub label : String
  pub created_at : ℤ

pub record AdminRow : Type 0 where
  pub discord_user_id : String
  pub added_by : String
  pub created_at : ℤ

pub record LogRow : Type 0 where
  pub discord_user_id : String
  pub command_name : String
  pub guild_id : Option String
  pub created_at : ℤ

-- `next_job` is the number that AUTOINCREMENT gives to the next job.
pub record Tables : Type 0 where
  pub users : List UserRow
  pub credentials : List CredentialsRow
  pub pending_searches : List PendingRow
  pub admins : List AdminRow
  pub command_log : List LogRow
  pub next_job : ℕ
  pub jobs : List JobRow
  pub progress : List ProgressRow
  pub materias : List MateriaRow
  pub history : List HistoryRow

-- `faults` says of the next statements whether the driver fails; past its end none does.
pub record Database : Type 0 where
  pub tables : Tables
  pub faults : List Bool

abbrev pub Sql : Type 0 → Type 0
Sql A = Exec Error Database A

abbrev pub driver_error : Error
driver_error = external "driver"

-- one statement: the driver fails, or `f` gives its result and the new tables
abbrev pub run :
    {A : Type 0}
    → (Tables → Result Error A × Tables)
    → Tables
    → List Bool
    → Result Error A × Database
run f t [] = let (r, t') = f t in (r, record { tables = t'; faults = [] })
run f t (true ∷ fs) = (err driver_error, record { tables = t; faults = fs })
run f t (false ∷ fs) = let (r, t') = f t in (r, record { tables = t'; faults = fs })

abbrev pub statement : {A : Type 0} → (Tables → Result Error A × Tables) → Sql A
statement f d = run f d.tables d.faults

unfoldable pub query : {A : Type 0} → (Tables → Result Error A) → Sql A
query f = statement (λ t. (f t, t))

unfoldable pub execute : (Tables → Tables) → Sql Unit
execute f = statement (λ t. (ok tt, f t))

-- a statement without effect: BeginTx and Commit
abbrev pub touch : Sql Unit
touch = statement (λ t. (ok tt, t))

-- what Commit answers; the Rollback after it finds the transaction done
abbrev pub committed : {A : Type 0} → A → Result Error Unit × Database → Result Error A × Database
committed a (ok _, d) = (ok a, d)
committed a (err e, d) = (err e, d)
committed a (panic, d) = (panic, d)

-- the end of a transaction: Commit, or the deferred Rollback
abbrev pub close : {A : Type 0} → Tables → Result Error A × Database → Result Error A × Database
close before (ok a, d) = committed a (touch d)
close before (err e, d) = (err e, record d { tables = before })
close before (panic, d) = (panic, record d { tables = before })

abbrev pub begun :
    {A : Type 0} → Sql A → Tables → Result Error Unit × Database → Result Error A × Database
begun body before (ok _, d) = close before (body d)
begun body before (err e, d) = (err e, d)
begun body before (panic, d) = (panic, d)

unfoldable pub transaction : {A : Type 0} → Sql A → Sql A
transaction body d = begun body d.tables (touch d)

-- 1970-01-01 as a `time.Time`
abbrev pub epoch : ℕ
epoch = 62135596800 * 1_000_000_000

abbrev pub milli : ℕ
milli = 1_000_000

-- UnixMilli, which rounds towards the past
unfoldable pub unix_milli : ℕ → ℤ
unix_milli t = if leb epoch t then pos ((t - epoch) / milli) else negsuc ((epoch - t - 1) / milli)

-- time.UnixMilli, for a time that is not before the zero value
unfoldable pub from_milli : ℤ → ℕ
from_milli (pos n) = epoch + n * milli
from_milli (negsuc n) = epoch - suc n * milli

-- NULL for the empty text, and the columns' zero values
abbrev pub null_text : String → Option String
null_text s = if s == "" then none else some s

abbrev pub text_or : Option String → String
text_or none = ""
text_or (some s) = s

abbrev pub time_or : Option ℤ → ℕ
time_or none = 0
time_or (some z) = from_milli z

abbrev pub int_or : Option ℤ → ℤ
int_or none = pos 0
int_or (some z) = z

-- SELECT ... WHERE discord_user_id = ?
unfoldable pub find_user : String → List UserRow → Option UserRow
find_user account [] = none
find_user account (u ∷ us) = if u.discord_user_id == account then some u else find_user account us

-- UPDATE users SET ... WHERE discord_user_id = ?
unfoldable pub set_users : String → (UserRow → UserRow) → List UserRow → List UserRow
set_users account f [] = []
set_users account f (u ∷ us) =
    (if u.discord_user_id == account then f u else u) ∷ set_users account f us

unfoldable pub find_job : String → List JobRow → Option JobRow
find_job id [] = none
find_job id (j ∷ js) = if j.id == id then some j else find_job id js

unfoldable pub set_jobs : String → (JobRow → JobRow) → List JobRow → List JobRow
set_jobs id f [] = []
set_jobs id f (j ∷ js) = (if j.id == id then f j else j) ∷ set_jobs id f js

unfoldable pub has_job : String → List JobRow → Bool
unfolding find_job
has_job id js = elim (find_job id js) [ none ↦ false | some _ ↦ true ]

-- the primary key of `notification_delivery_progress`
abbrev pub is_row : ProgressRow → ProgressRow → Bool
is_row a b =
    a.job_id == b.job_id
    && (a.delivery_fingerprint == b.delivery_fingerprint
        && (a.route == b.route && eqz a.fragment_index b.fragment_index))

unfoldable pub find_progress : ProgressRow → List ProgressRow → Option ProgressRow
find_progress key [] = none
find_progress key (r ∷ rs) = if is_row r key then some r else find_progress key rs
