-- ===== src/Commands/Policy/Refinement.antt =====
-- The commands implement the two sets, whatever orders are given.
use uade_bot.Prelude.{
  ◌≡◌, refl, sym, ap, ◌∙◌, subst, String, ◌==◌, Bool, true, false, not, ◌&&◌, ◌||◌, Option, none,
  some, List, [], ◌∷◌, if◌then◌else◌, arith, Bool-cases, eq_iff, inl, inr,
}
use uade_bot.SqlStore.Statements.{UserRow, AdminRow, Tables, find_user, set_users, query, execute}
use uade_bot.Commands.Desk.{Call, Config}
use uade_bot.Commands.Desk.Frames.{tables_of}
use uade_bot.Commands.Searches.Pending.{desk}
use uade_bot.Commands.Accounts.{
  admin_ban, admin_unban, superadmin_agregar, superadmin_eliminar, upsert_user, new_user, banned,
  is_banned, was_banned, unban_user, pause_reason, in_admins, put_admin, without_admin, reason_text,
  reason_of,
}
use uade_bot.Commands.Accounts.Bans.{banned_row, lifted_row, find_user-upsert, lifted-set}
use uade_bot.Commands.Policy.{
  Policy, Order, ban, unban, grant, revoke, perform, perform_all, obey, obey_all, Implements,
}

in_admins-put :
    (a : AdminRow) (user : String) (rows : List AdminRow)
    → in_admins user (put_admin a rows) ≡ (a.discord_user_id == user || in_admins user rows)
unfolding in_admins put_admin
in_admins-put a user [] = ground (arith, eq_iff a.discord_user_id user)
in_admins-put a user (b ∷ rows) = ground (
  arith,
  eq_iff a.discord_user_id user,
  eq_iff b.discord_user_id user,
  eq_iff b.discord_user_id a.discord_user_id,
  in_admins-put a user rows,
)

in_admins-without :
    (target user : String) (rows : List AdminRow)
    → in_admins user (without_admin target rows) ≡ (not (target == user) && in_admins user rows)
unfolding in_admins without_admin
in_admins-without target user [] = ground arith
in_admins-without target user (b ∷ rows) = ground (
  arith,
  eq_iff target user,
  eq_iff b.discord_user_id user,
  eq_iff b.discord_user_id target,
  in_admins-without target user rows,
)

-- the tables after a command
abbrev after : Order → Config → String → Tables → Tables
after (ban target) c super t = record t {
  users = upsert_user (new_user target (some "banned")) banned t.users;
}
after (unban target) c super t = record t {
  users =
      set_users target (λ u. if is_banned u then record u { pause_reason = none } else u) t.users;
}
after (grant target) c super t = record t {
  admins =
      put_admin (record { discord_user_id = target; added_by = super; created_at = c.now })
        t.admins;
}
after (revoke target) c super t = record t { admins = without_admin target t.admins }

-- the orders that the code leaves alone
abbrev idle : Config → Order → Bool
idle c (ban target) = target == ""
idle c (unban target) = target == ""
idle c (grant target) = target == "" || target == c.super_admin_id
idle c (revoke target) = target == "" || target == c.super_admin_id

perform-desk :
    (c : Config) (super : String) (o : Order) (t : Tables) (calls : List Call)
    → (perform c super o (desk t calls)).1 ≡ desk (if idle c o then t else after o c super t) calls
unfolding admin_ban admin_unban unban_user pause_reason superadmin_agregar superadmin_eliminar query
    execute
perform-desk c super (ban target) t calls = elim (Bool-cases (target == "")) [
  | inl e ↦ rw e refl
  | inr e ↦ rw e refl
]
perform-desk c super (unban target) t calls = elim (Bool-cases (target == "")) [
  | inl e ↦ rw e refl
  | inr e ↦ elim (Bool-cases (was_banned (find_user target t.users))) [
    | inl w ↦ rw (e, w) refl
    | inr w ↦ rw (e, w) refl
  ]
]
perform-desk c super (grant target) t calls = elim (Bool-cases (target == "")) [
  | inl e ↦ rw e refl
  | inr e ↦ elim (Bool-cases (target == c.super_admin_id)) [
    | inl w ↦ rw (e, w) refl
    | inr w ↦ rw (e, w) refl
  ]
]
perform-desk c super (revoke target) t calls = elim (Bool-cases (target == "")) [
  | inl e ↦ rw e refl
  | inr e ↦ elim (Bool-cases (target == c.super_admin_id)) [
    | inl w ↦ rw (e, w) refl
    | inr w ↦ rw (e, w) refl
  ]
]

-- whether a row is one of a ban
abbrev shows_ban : Option UserRow → Bool
shows_ban o = reason_text (reason_of o) == "banned"

has_ban-ban :
    (target user : String) (us : List UserRow)
    → shows_ban (find_user user (upsert_user (new_user target (some "banned")) banned us))
      ≡ (target == user || shows_ban (find_user user us))
has_ban-ban target user us =
    ap shows_ban (find_user-upsert (new_user target (some "banned")) banned user us (λ u. refl))
    ∙ cases (target == user) (find_user target us)
  where
    cases :
        (b : Bool) (o : Option UserRow)
        → shows_ban (if b then some (banned_row target o) else find_user user us)
          ≡ (b || shows_ban (find_user user us))
    cases false o = refl
    cases true none = refl
    cases true (some u) = refl

shows_ban-lifted :
    (same : Bool) (o : Option UserRow) → shows_ban (lifted_row same o) ≡ (not same && shows_ban o)
shows_ban-lifted true none = refl
shows_ban-lifted false none = refl
shows_ban-lifted false (some u) = refl
shows_ban-lifted true (some u) = elim (Bool-cases (is_banned u)) [
  | inl e ↦ rw e refl
  | inr e ↦ rw (e, e) refl
]

has_ban-unban :
    (target user : String) (us : List UserRow)
    → shows_ban (
        find_user user
          (set_users target (λ u. if is_banned u then record u { pause_reason = none } else u) us))
      ≡ (not (target == user) && shows_ban (find_user user us))
has_ban-unban target user us =
    ap shows_ban (lifted-set target user us) ∙ shows_ban-lifted (target == user) (find_user user us)

obey-Implements :
    (c : Config) (super : String) (o : Order) (p : Policy) (t : Tables)
    → Implements p t
    → Implements (obey c o p) (if idle c o then t else after o c super t)
obey-Implements c super (ban target) p t h = elim (Bool-cases (target == "")) [
  | inl e ↦ rw e h
  | inr e ↦ rw e (λ user. (
    ap (λ b. target == user || b) (h user).0 ∙ sym (has_ban-ban target user t.users),
    (h user).1,
  ))
]
obey-Implements c super (unban target) p t h = elim (Bool-cases (target == "")) [
  | inl e ↦ rw e h
  | inr e ↦ rw e (λ user. (
    ap (λ b. not (target == user) && b) (h user).0 ∙ sym (has_ban-unban target user t.users),
    (h user).1,
  ))
]
obey-Implements c super (grant target) p t h = elim (Bool-cases (target == "")) [
  | inl e ↦ rw e h
  | inr e ↦ elim (Bool-cases (target == c.super_admin_id)) [
    | inl w ↦ rw (e, w) h
    | inr w ↦
        rw (e, w)
          (λ user. (
            (h user).0,
            ap (λ b. target == user || b) (h user).1
                ∙ sym (
                    in_admins-put
                      (record { discord_user_id = target; added_by = super; created_at = c.now })
                      user t.admins),
          ))
  ]
]
obey-Implements c super (revoke target) p t h = elim (Bool-cases (target == "")) [
  | inl e ↦ rw e h
  | inr e ↦ elim (Bool-cases (target == c.super_admin_id)) [
    | inl w ↦ rw (e, w) h
    | inr w ↦
        rw (e, w)
          (λ user. (
            (h user).0,
            ap (λ b. not (target == user) && b) (h user).1
                ∙ sym (in_admins-without target user t.admins),
          ))
  ]
]

-- Where the driver does not fail, the commands that ban, lift a ban, and give and take an
-- administrator's rights, given in any order, leave tables that stand for the two sets that the
-- same orders make of the sets before: every user is banned, and is in the table of administrators,
-- as the sets say.
pub perform_all-Implements :
    (c : Config) (super : String) (os : List Order) (p : Policy) (t : Tables) (calls : List Call)
    → Implements p t
    → Implements (obey_all c os p) (tables_of (perform_all c super os (desk t calls)))
perform_all-Implements c super [] p t calls h = h
perform_all-Implements c super (o ∷ os) p t calls h =
    subst (λ d. Implements (obey_all c (o ∷ os) p) (tables_of (perform_all c super os d)))
      (sym (perform-desk c super o t calls))
      (perform_all-Implements c super os (obey c o p) (if idle c o then t else after o c super t)
        calls (obey-Implements c super o p t h))
