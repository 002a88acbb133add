-- ===== src/Commands/Policy.antt =====
-- Who is banned and who is an administrator, as two sets, and the four commands that change them.
pub mod Refinement
use uade_bot.Prelude.{
  ℕ, ◌≡◌, refl, sym, ap, ◌∙◌, subst, String, ◌==◌, Bool, true, false, not, ◌&&◌, ◌||◌, Option, none,
  some, List, [], ◌∷◌, if◌then◌else◌, arith, Bool-cases, eq_iff, eq_refl, text-cases, inl, inr,
}
use uade_bot.Prelude.Int.{ℤ}
use uade_bot.SqlStore.Statements.{
  UserRow, AdminRow, Tables, Database, find_user, set_users, query, execute, text_or,
}
use uade_bot.Commands.Desk.{Desk, Call, Action, Reply, Config}
use uade_bot.Commands.Searches.Pending.{desk}
use uade_bot.Commands.Accounts.{
  admin_ban, admin_unban, superadmin_agregar, superadmin_eliminar, upsert_user, new_user, banned,
  is_banned, was_banned, unban_user, pause_reason, in_admins, put_admin, without_admin, reason_text,
  reason_of,
}
use uade_bot.Commands.Accounts.Bans.{banned_row, lifted_row, lifted, find_user-upsert, lifted-set}

-- The sets, as what they answer.
pub record Policy : Type 0 where
  pub bans : String → Bool
  pub admins : String → Bool

pub data Order : Type 0 where
  ban unban grant revoke : String → Order

-- the code's command for an order, given by `super`
abbrev pub perform : Config → String → Order → Action Reply
perform c super (ban target) = admin_ban target
perform c super (unban target) = admin_unban target
perform c super (grant target) = superadmin_agregar c super target
perform c super (revoke target) = superadmin_eliminar c target

abbrev pub perform_all : Config → String → List Order → Desk → Desk
perform_all c super [] d = d
perform_all c super (o ∷ os) d = perform_all c super os (perform c super o d).1

abbrev pub with_one : String → (String → Bool) → String → Bool
with_one target set user = target == user || set user

abbrev pub without_one : String → (String → Bool) → String → Bool
without_one target set user = not (target == user) && set user

-- No order is for the empty name, and the super-admin is never in the set of administrators.
abbrev pub obey : Config → Order → Policy → Policy
obey c (ban target) p = if target == "" then p else record p { bans = with_one target p.bans }
obey c (unban target) p = if target == "" then p else record p { bans = without_one target p.bans }
obey c (grant target) p =
    if target == ""
    then p
    else if target == c.super_admin_id
    then p
    else record p { admins = with_one target p.admins }
obey c (revoke target) p =
    if target == ""
    then p
    else if target == c.super_admin_id
    then p
    else record p { admins = without_one target p.admins }

abbrev pub obey_all : Config → List Order → Policy → Policy
obey_all c [] p = p
obey_all c (o ∷ os) p = obey_all c os (obey c o p)

-- the set that the tables stand for
abbrev pub has_ban : String → Tables → Bool
has_ban user t = reason_text (reason_of (find_user user t.users)) == "banned"

abbrev pub Implements : Policy → Tables → Type 0
Implements p t =
    (user : String) → (p.bans user ≡ has_ban user t) × (p.admins user ≡ in_admins user t.admins)
