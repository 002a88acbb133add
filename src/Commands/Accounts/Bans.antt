-- ===== src/Commands/Accounts/Bans.antt =====
-- What a ban does to the stored accounts, and what lifting it leaves of it.
use uade_bot.Commands.Accounts.{was_banned}
use uade_bot.Commands.Accounts.{pause_reason}
use uade_bot.Prelude.{
  ℕ, ◌≡◌, refl, ap, ◌∙◌, String, ◌==◌, Bool, true, false, ◌&&◌, Option, none, some, List, [], ◌∷◌,
  if◌then◌else◌, arith, Bool-cases, eq_iff, eq_refl, inl, inr,
}
use uade_bot.Scheduler.Backoff.{is_paused}
use uade_bot.SqlStore.Statements.{UserRow, find_user, set_users, execute, query}
use uade_bot.SqlStore.{account_of}
use uade_bot.Commands.Desk.{Desk}
use uade_bot.Commands.Desk.Frames.{tables_of}
use uade_bot.Commands.Accounts.{
  new_user, upsert_user, banned, is_banned, reason_text, reason_of, admin_ban, admin_unban,
  unban_user,
}

abbrev pub user_of : String → Desk → Option UserRow
user_of user d = find_user user (tables_of d).users

-- the row that an upsert leaves
abbrev pub upserted : UserRow → (UserRow → UserRow) → Option UserRow → UserRow
upserted fresh f none = fresh
upserted fresh f (some u) = f u

pub find_user-upsert :
    (fresh : UserRow) (f : UserRow → UserRow) (other : String) (us : List UserRow)
    → ((u : UserRow) → (f u).discord_user_id ≡ u.discord_user_id)
    → find_user other (upsert_user fresh f us) ≡ (
        if fresh.discord_user_id == other
        then some (upserted fresh f (find_user fresh.discord_user_id us))
        else find_user other us)
unfolding find_user upsert_user
find_user-upsert fresh f other [] same = refl
find_user-upsert fresh f other (u ∷ us) same = ground (
  arith,
  same u,
  eq_iff u.discord_user_id fresh.discord_user_id,
  eq_iff u.discord_user_id other,
  eq_iff (f u).discord_user_id other,
  eq_iff fresh.discord_user_id other,
  find_user-upsert fresh f other us same,
)

pub find_user-set :
    (user other : String) (f : UserRow → UserRow) (us : List UserRow)
    → ((u : UserRow) → (f u).discord_user_id ≡ u.discord_user_id)
    → find_user other (set_users user f us) ≡ elim (find_user other us) as (λ _. Option UserRow) [
      | none ↦ none
      | some u ↦ some (if user == other then f u else u)
    ]
unfolding find_user set_users
find_user-set user other f [] same = refl
find_user-set user other f (u ∷ us) same = ground (
  arith,
  same u,
  eq_iff u.discord_user_id user,
  eq_iff u.discord_user_id other,
  eq_iff (f u).discord_user_id other,
  eq_iff user other,
  find_user-set user other f us same,
)

-- the row of a user who was banned
abbrev pub banned_row : String → Option UserRow → UserRow
banned_row target o = upserted (new_user target (some "banned")) banned o

pub admin_ban-users :
    (target : String) (d : Desk)
    → (target == "") ≡ false
    → d.database.faults ≡ []
    → tables_of (admin_ban target d).1 ≡ record (tables_of d) {
      users = upsert_user (new_user target (some "banned")) banned (tables_of d).users;
    }
unfolding admin_ban execute
admin_ban-users target d named nofault = rw (named, nofault) refl

banned_row-paused :
    (target : String) (o : Option UserRow) (now : ℕ)
    → (reason_text (some (banned_row target o).pause_reason) ≡ "banned")
      × (is_paused (account_of (some (banned_row target o))) now ≡ true)
unfolding is_paused
banned_row-paused target none now = (refl, refl)
banned_row-paused target (some u) now = (refl, refl)

pub find_user-banned :
    (target other : String) (d : Desk)
    → (target == "") ≡ false
    → d.database.faults ≡ []
    → user_of other (admin_ban target d).1
      ≡ (if target == other then some (banned_row target (user_of target d)) else user_of other d)
find_user-banned target other d named nofault =
    ap (λ t. find_user other t.users) (admin_ban-users target d named nofault)
    ∙ find_user-upsert (new_user target (some "banned")) banned other (tables_of d).users
        (λ u. refl)

-- Let the driver not fail, and an administrator ban an account. Then its pause reason is `banned`
-- and the scheduler reads it as paused at every time, whether the account was stored before or
-- not; every other account's row is as before, and so are the jobs and the credentials.
pub admin_ban-blocks :
    (target other : String) (now : ℕ) (d : Desk)
    → (target == "") ≡ false
    → d.database.faults ≡ []
    → let d' = (admin_ban target d).1 in
      (reason_text (reason_of (user_of target d')) ≡ "banned")
      × (is_paused (account_of (user_of target d')) now ≡ true)
      × (user_of other d' ≡ (
          if target == other then some (banned_row target (user_of target d)) else user_of other d))
      × ((tables_of d').jobs ≡ (tables_of d).jobs)
      × ((tables_of d').credentials ≡ (tables_of d).credentials)
admin_ban-blocks target other now d named nofault =
    let e = admin_ban-users target d named nofault in
    let own : user_of target (admin_ban target d).1 ≡ some (banned_row target (user_of target d)) =
      find_user-banned target target d named nofault
      ∙ ap (λ b. if b then some (banned_row target (user_of target d)) else user_of target d)
          (eq_refl target) in
    let row = banned_row-paused target (user_of target d) now in
    (
      ap (λ o. reason_text (reason_of o)) own ∙ row.0,
      ap (λ o. is_paused (account_of o) now) own ∙ row.1,
      find_user-banned target other d named nofault,
      ap (λ t. t.jobs) e,
      ap (λ t. t.credentials) e,
    )

-- the row of another user, or of `target` after its ban was lifted
abbrev pub lifted : Bool → UserRow → UserRow
lifted same u = if same && is_banned u then record u { pause_reason = none } else u

abbrev pub lifted_row : Bool → Option UserRow → Option UserRow
lifted_row same none = none
lifted_row same (some u) = some (lifted same u)

pub lifted-set :
    (target other : String) (us : List UserRow)
    → find_user other
        (set_users target (λ u. if is_banned u then record u { pause_reason = none } else u) us)
      ≡ lifted_row (target == other) (find_user other us)
lifted-set target other us =
    find_user-set target other (λ u. if is_banned u then record u { pause_reason = none } else u) us
      (λ u. same u)
    ∙ cases (target == other) (find_user other us)
  where
    same :
        (u : UserRow)
        → (if is_banned u then record u { pause_reason = none } else u).discord_user_id
          ≡ u.discord_user_id
    same u = elim (Bool-cases (is_banned u)) [ inl e ↦ rw e refl | inr e ↦ rw e refl ]

    cases :
        (b : Bool) (o : Option UserRow)
        → elim o as (λ _. Option UserRow) [
          | none ↦ none
          | some u ↦
              some (if b then (if is_banned u then record u { pause_reason = none } else u) else u)
        ]
          ≡ lifted_row b o
    cases b none = refl
    cases true (some u) = refl
    cases false (some u) = refl

-- Let the driver not fail. Lifting a ban clears the pause reason of that account where the reason
-- is `banned`; a pause of any other reason stays, and so does every other account's row.
pub admin_unban-lifts :
    (target other : String) (d : Desk)
    → (target == "") ≡ false
    → d.database.faults ≡ []
    → user_of other (admin_unban target d).1 ≡ lifted_row (target == other) (user_of other d)
unfolding admin_unban unban_user pause_reason query
admin_unban-lifts target other d named nofault = elim (Bool-cases (was_banned (user_of target d))) [
  | inl was ↦ rw (named, nofault, was) (lifted-set target other (tables_of d).users)
  | inr was ↦ rw (named, nofault, was) (lifted-set target other (tables_of d).users)
]
