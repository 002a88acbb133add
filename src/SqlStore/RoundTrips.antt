-- ===== src/SqlStore/RoundTrips.antt =====
-- What is read back after it was written.
use mathlib.Core.Option
use uade_bot.Prelude.{
  ℕ, ◌+◌, ◌*◌, ◌≡◌, refl, ap, ◌∙◌, String, ◌==◌, none, some, List, [], ◌∷◌, arith, ◌⊎◌, inl, inr,
  if◌then◌else◌, eq_iff, eq_refl, eqb,
}
use uade_bot.Prelude.Exec.{ok, ◌>>◌}
use uade_bot.Scheduler.Types.{AccountState}
use uade_bot.SqlStore.Statements.{
  Database, UserRow, find_user, set_users, epoch, milli, unix_milli, from_milli, null_text, text_or,
  time_or, query, execute,
}
use uade_bot.SqlStore.{account_state, save_account_state, account_of, with_state}

find_user-set_users :
    (account other : String) (f : UserRow → UserRow) (us : List UserRow)
    → ((u : UserRow) → (f u).discord_user_id ≡ u.discord_user_id)
    → find_user other (set_users account f us)
      ≡ (if account == other then Option.map f (find_user other us) else find_user other us)
unfolding find_user set_users
find_user-set_users account other f [] h = ground arith
find_user-set_users account other f (u ∷ us) h = ground (
  arith,
  h u,
  eq_iff u.discord_user_id account,
  eq_iff u.discord_user_id other,
  eq_iff (f u).discord_user_id other,
  eq_iff account other,
  find_user-set_users account other f us h,
)

-- a time in whole milliseconds, or none, is stored exactly
from_milli-unix_milli : (k : ℕ) → from_milli (unix_milli (epoch + k * milli)) ≡ epoch + k * milli
unfolding from_milli unix_milli
from_milli-unix_milli k = ground arith

text_or-null_text : (s : String) → text_or (null_text s) ≡ s
text_or-null_text s = ground (arith, eq_iff s "")

stored_time :
    (t : ℕ)
    → (t ≡ 0) ⊎ ((k : ℕ) × (t ≡ epoch + k * milli))
    → time_or (if eqb t 0 then none else some (unix_milli t)) ≡ t
stored_time t (inl zero_time) = rw zero_time refl
stored_time t (inr (k, e)) =
    ground (arith, from_milli-unix_milli k, ap (λ x. from_milli (unix_milli x)) e)

read_back :
    (state : AccountState) (u : UserRow)
    → (state.pause_until ≡ 0) ⊎ ((k : ℕ) × (state.pause_until ≡ epoch + k * milli))
    → account_of (some (with_state state u))
      ≡ record state { last_pause_notified_reason = text_or u.last_pause_notified_reason }
read_back state u time =
    ground (arith, text_or-null_text state.reason, stored_time state.pause_until time)

written :
    (account : String) (d : Database) (state : AccountState) (u : UserRow)
    → find_user account d.tables.users ≡ some u
    → find_user account (set_users account (with_state state) d.tables.users)
      ≡ some (with_state state u)
written account d state u row =
    find_user-set_users account account (with_state state) d.tables.users (λ v. refl)
    ∙ rw (eq_refl account, row) refl

-- Let the driver not fail and the account have a row. Then `AccountState` after `SaveAccountState`
-- reads the state that was saved, but for the reason last announced, which keeps its old value;
-- the end of a pause is a whole number of milliseconds since 1970 or none.
pub account_state-save_account_state :
    (d : Database) (account : String) (state : AccountState) (u : UserRow)
    → d.faults ≡ []
    → find_user account d.tables.users ≡ some u
    → (state.pause_until ≡ 0) ⊎ ((k : ℕ) × (state.pause_until ≡ epoch + k * milli))
    → ((save_account_state account state >> account_state account) d).0
      ≡ ok (record state { last_pause_notified_reason = text_or u.last_pause_notified_reason })
unfolding save_account_state account_state query execute
account_state-save_account_state d account state u nofault row time =
    rw nofault (ap ok (ap account_of (written account d state u row) ∙ read_back state u time))
