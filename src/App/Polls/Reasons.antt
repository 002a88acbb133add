-- ===== src/App/Polls/Reasons.antt =====
-- The reason that a failed relink writes, and the one that the poll's outcome leads to.
use uade_bot.Prelude.{ℕ, ◌≡◌, refl, ap, ◌∙◌, String, false, Option, none, some, [], eq_refl}
use uade_bot.Prelude.Exec.{ok, err}
use uade_bot.Scheduler.Types.{AccountState}
use uade_bot.Scheduler.Backoff.{next_backoff, signal_for}
use uade_bot.SqlStore.Statements.{
  UserRow, Tables, find_user, set_users, query, execute, null_text, text_or,
}
use uade_bot.SqlStore.{account_of, account_state, save_account_state, with_state}
use uade_bot.Commands.Desk.{Credentials, JobFilters}
use uade_bot.Commands.Accounts.Bans.{find_user-set}
use uade_bot.App.Polls.{
  RelinkError, invalid_credentials, mfa_required, Site, Runtime, mark_needs, heal_code, coded,
  noted, heal_start_url, resolve_stale_outcome, poll_with, stale_code,
}

-- a site whose driver does not fail
abbrev pub site : {O : Type 0} → Tables → O → Site O
site t o = record { database = record { tables = t; faults = [] }; outside = o }

-- the stored reason of an account
abbrev pub reason_in : {O : Type 0} → String → Site O → String
reason_in account s = (account_of (find_user account s.database.tables.users)).reason

-- the reason that the scheduler writes for a code
abbrev pub reason_of_state : Option AccountState → String
reason_of_state none = ""
reason_of_state (some s) = s.reason

abbrev pub pause_for : String → AccountState → ℕ → String
pause_for code s now = reason_of_state (next_backoff s (signal_for code) now)

-- the errors that healStartURL writes a reason for
pub data Marks : RelinkError → String → Type 0 where
  rejected : Marks invalid_credentials "needs_credentials"
  challenged : Marks mfa_required "needs_new_start_url"

abbrev marked : String → String → UserRow → Tables → Tables
marked reason account u t = record t {
  users = set_users account (with_state (record (account_of (some u)) { reason = reason })) t.users;
}

mark_needs-marked :
    (reason account : String) (u : UserRow) (t : Tables)
    → find_user account t.users ≡ some u
    → mark_needs reason account (record { tables = t; faults = [] })
      ≡ (ok tt, record { tables = marked reason account u t; faults = [] })
unfolding mark_needs account_state save_account_state query execute
mark_needs-marked reason account u t found = rw found refl

reason_in-marked :
    (reason account : String) (u : UserRow) (t : Tables)
    → find_user account t.users ≡ some u
    → (account_of (find_user account (marked reason account u t).users)).reason
      ≡ text_or (null_text reason)
reason_in-marked reason account u t found =
    ap (λ o. (account_of o).reason)
      (find_user-set account account (with_state (record (account_of (some u)) { reason = reason }))
        t.users (λ v. refl))
    ∙ rw (found, eq_refl account) refl

Marks-text :
    {e : RelinkError} {reason : String} → Marks e reason → text_or (null_text reason) ≡ reason
Marks-text rejected = refl
Marks-text challenged = refl

noted-marked :
    {O : Type 0} {e : RelinkError} {reason : String} (account : String) (u : UserRow) (t : Tables)
    (o : O)
    → Marks e reason
    → find_user account t.users ≡ some u
    → noted account e (site t o) ≡ (ok tt, site (marked reason account u t) o)
noted-marked account u t o rejected found =
    rw (mark_needs-marked "needs_credentials" account u t found) refl
noted-marked account u t o challenged found =
    rw (mark_needs-marked "needs_new_start_url" account u t found) refl

-- the reasons agree where poll itself renews the link
pause_for-heal :
    {e : RelinkError} {reason : String} (s : AccountState) (now : ℕ)
    → Marks e reason
    → pause_for (heal_code e) s now ≡ reason
unfolding next_backoff signal_for heal_code
pause_for-heal s now rejected = refl
pause_for-heal s now challenged = refl

module _ {O : Type 0} (r : Runtime O) (account : String) (credentials : Credentials) (u : UserRow)
    (t : Tables) (o o' : O) where
  heal-marked :
      {e : RelinkError} {reason : String}
      → r.portal ≡ ok tt
      → find_user account t.users ≡ some u
      → r.relink credentials.username credentials.password o ≡ (err e, o')
      → Marks e reason
      → heal_start_url r account credentials (site t o)
        ≡ (err e, site (marked reason account u t) o')
  unfolding heal_start_url
  heal-marked portal found refused m =
      rw (portal, refused, noted-marked account u t o' m found) refl

-- Let a stored link not be valid, the driver not fail, and the relink be refused, for the password
-- or for a second factor. Then the poll answers a code for which the scheduler pauses the account
-- with the very reason that the relink has stored.
pub poll_with-agrees :
    {O : Type 0} (r : Runtime O) (account : String) (filters : JobFilters)
    (credentials : Credentials) (u : UserRow) (t : Tables) (o o' : O) (e : RelinkError)
    (reason : String) (state : AccountState) (now : ℕ)
    → r.valid_start_url credentials.start_url ≡ false
    → r.portal ≡ ok tt
    → find_user account t.users ≡ some u
    → r.relink credentials.username credentials.password o ≡ (err e, o')
    → Marks e reason
    → let (answer, s) = poll_with r account filters credentials (site t o) in
      (answer ≡ ok (coded (heal_code e)))
      × (reason_in account s ≡ reason)
      × (pause_for (heal_code e) state now ≡ reason)
poll_with-agrees r account filters credentials u t o o' e reason state now stale portal found
      refused m =
    rw (stale, heal-marked r account credentials u t o o' portal found refused m)
      (refl, reason_in-marked reason account u t found ∙ Marks-text m, pause_for-heal state now m)

-- Let a search find the stored link stale, the driver not fail, and Microsoft refuse the password in
-- the relink. Then the reason that is stored asks for credentials, but the code that is answered
-- makes the scheduler overwrite it with the one that asks for a new link.
pub resolve_stale_outcome-overwritten :
    {O : Type 0} (r : Runtime O) (account : String) (credentials : Credentials) (u : UserRow)
    (t : Tables) (o o' : O) (state : AccountState) (now : ℕ)
    → r.portal ≡ ok tt
    → find_user account t.users ≡ some u
    → r.relink credentials.username credentials.password o ≡ (err invalid_credentials, o')
    → let (code, s) = resolve_stale_outcome r account credentials (site t o) in
      (code ≡ ok "stale_start_url")
      × (reason_in account s ≡ "needs_credentials")
      × (pause_for "stale_start_url" state now ≡ "needs_new_start_url")
unfolding resolve_stale_outcome stale_code next_backoff signal_for
resolve_stale_outcome-overwritten r account credentials u t o o' state now portal found refused =
    rw (heal-marked r account credentials u t o o' portal found refused rejected)
      (refl, reason_in-marked "needs_credentials" account u t found, refl)
