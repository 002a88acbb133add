-- ===== src/Commands/Dispatch/Guards.antt =====
-- A command that is refused changes nothing.
use text.Mathlib.Text.{starts_with}
use uade_bot.Prelude.{
  ℕ, ◌≡◌, ◌⊎◌, inl, inr, refl, sym, ap, ◌∙◌, subst, String, ◌==◌, Bool, true, false, ◌&&◌, ◌||◌,
  not, some, eqb, Bool-cases, eqb→eq,
}
use uade_bot.Prelude.Exec.{Result, ok, err, panic, pure, ◌>>=◌, >>=-assoc, continue}
use uade_bot.Scheduler.Types.{Error}
use uade_bot.SqlStore.Statements.{Tables, find_user}
use uade_bot.Commands.Desk.{Desk, Action, Reply, Config, on_database}
use uade_bot.Commands.Desk.Frames.{Frozen, query-bind, tables_of}
use uade_bot.Commands.Accounts.{
  actor_blocked, is_admin, in_admins, reason_text, reason_of, pause_reason,
}
use uade_bot.Commands.Dispatch.{
  Interaction, Handlers, actor, is_super, answered, admin_only, checked, allowed, dispatch,
}

-- whether the account of a user is banned, in these tables
abbrev pub is_blocked : String → Tables → Bool
is_blocked user t = reason_text (reason_of (find_user user t.users)) == "banned"

-- whether a user is an administrator, by the configuration or by these tables
abbrev pub has_rights : Config → String → Tables → Bool
has_rights c user t =
    (not (c.super_admin_id == "") && user == c.super_admin_id) || in_admins user t.admins

-- what DispatchInteraction refuses
abbrev pub Refused : Config → Interaction → Tables → Type 0
Refused c i t =
    (is_blocked (actor i) t ≡ true)
    ⊎ (((eqb i.type_number 2 ≡ true)
          × (starts_with i.name "admin-" ≡ true)
          × (has_rights c (actor i) t ≡ false))
        ⊎ ((eqb i.type_number 2 ≡ true)
            × ((is_super i.name && (c.super_admin_id == "" || not (actor i == c.super_admin_id)))
                ≡ true)))

actor_blocked-bind :
    {B : Type 0} (user : String) (K : Desk → Type 0) (g : Bool → Action B) (d : Desk)
    → ((d' : Desk) → Frozen d d' → K d')
    → ((d' : Desk) → Frozen d d' → K (g (is_blocked user (tables_of d)) d').1)
    → K ((actor_blocked user >>= g) d).1
unfolding actor_blocked pause_reason
actor_blocked-bind {B} user K g d h h' =
    subst (λ x. K x.1)
      (sym
        (>>=-assoc (on_database (pause_reason user)) (λ r. pure (reason_text r == "banned")) g d))
      (query-bind K (λ t. reason_of (find_user user t.users))
        (λ r. pure (reason_text r == "banned") >>= g) d h h')

is_admin-bind :
    {B : Type 0} (c : Config) (user : String) (K : Desk → Type 0) (g : Bool → Action B) (d : Desk)
    → ((d' : Desk) → Frozen d d' → K d')
    → ((d' : Desk) → Frozen d d' → K (g (has_rights c user (tables_of d)) d').1)
    → K ((is_admin c user >>= g) d).1
unfolding is_admin
is_admin-bind c user K g d h h' =
    elim (Bool-cases (not (c.super_admin_id == "") && user == c.super_admin_id)) [
      | inl super ↦
          let has : has_rights c user (tables_of d) ≡ true = rw super refl in
          rw super (subst (λ b. K (g b d).1) has (h' d (refl, refl)))
      | inr other ↦
          let same : has_rights c user (tables_of d) ≡ in_admins user (tables_of d).admins =
            rw other refl in
          rw other (
            query-bind K (λ t. in_admins user t.admins) g d h
              (λ d' e. subst (λ b. K (g b d').1) same (h' d' e)))
    ]

module _ (c : Config) (h : Handlers) (fuel : ℕ) where
  answered-Frozen :
      (m : Action Reply) (d0 d : Desk) → Frozen d0 (m d).1 → Frozen d0 (answered m d).1
  answered-Frozen m d0 d = ends (m d)
    where
      ends :
          (r : Result Error Reply × Desk)
          → Frozen d0 r.1
          → Frozen d0 (let (a, d') = r in continue a (λ reply. pure (some reply)) d').1
      ends (ok a, d') e = e
      ends (err e, d') e' = e'
      ends (panic, d') e = e

  then-Frozen : (d0 d d' : Desk) → Frozen d0 d → Frozen d d' → Frozen d0 d'
  then-Frozen d0 d d' (e, f) (e', f') = (e' ∙ e, f' ∙ f)

  admin_only-Frozen :
      (user : String) (i : Interaction) (d : Desk)
      → has_rights c user (tables_of d) ≡ false
      → Frozen d (admin_only c h fuel user i d).1
  admin_only-Frozen user i d no_rights =
      is_admin-bind c user (Frozen d) _ d (λ d' e. e) (λ d' e. rw no_rights e)

  checked-Frozen :
      (user : String) (i : Interaction) (d : Desk)
      → ((starts_with i.name "admin-" ≡ true) × (has_rights c user (tables_of d) ≡ false))
        ⊎ ((is_super i.name && (c.super_admin_id == "" || not (user == c.super_admin_id))) ≡ true)
      → Frozen d (checked c h fuel user i d).1
  checked-Frozen user i d (inr super) = rw super (refl, refl)
  checked-Frozen user i d (inl (admin, no_rights)) =
      elim (Bool-cases
        (is_super i.name && (c.super_admin_id == "" || not (user == c.super_admin_id)))) [
          | inl super ↦ rw super (refl, refl)
          | inr other ↦ rw (other, admin) (admin_only-Frozen user i d no_rights)
        ]

  allowed-Frozen :
      (user : String) (i : Interaction) (d0 d : Desk)
      → eqb i.type_number 2 ≡ true
      → Frozen d0 d
      → Frozen d (checked c h fuel user i d).1
      → Frozen d0 (allowed c h fuel user i d).1
  unfolding allowed
  allowed-Frozen user i d0 d command e e' =
      let two : i.type_number ≡ 2 = eqb→eq i.type_number 2 command in
      let not_five : eqb i.type_number 5 ≡ false = ap (λ n. eqb n 5) two in
      let not_four : eqb i.type_number 4 ≡ false = ap (λ n. eqb n 4) two in
      let not_three : eqb i.type_number 3 ≡ false = ap (λ n. eqb n 3) two in
      rw (not_five, not_four, not_three, command)
        (answered-Frozen (checked c h fuel user i) d0 d
          (then-Frozen d0 d (checked c h fuel user i d).1 e e'))

  unblocked-Frozen :
      (i : Interaction) (d d' : Desk)
      → Frozen d d'
      → ((eqb i.type_number 2 ≡ true)
          × (starts_with i.name "admin-" ≡ true)
          × (has_rights c (actor i) (tables_of d) ≡ false))
        ⊎ ((eqb i.type_number 2 ≡ true)
            × ((is_super i.name && (c.super_admin_id == "" || not (actor i == c.super_admin_id)))
                ≡ true))
      → Frozen d (allowed c h fuel (actor i) i d').1
  unblocked-Frozen i d d' e (inl (command, admin, no_rights)) =
      allowed-Frozen (actor i) i d d' command e
        (checked-Frozen (actor i) i d' (inl (admin, ap (has_rights c (actor i)) e.0 ∙ no_rights)))
  unblocked-Frozen i d d' e (inr (command, super)) =
      allowed-Frozen (actor i) i d d' command e (checked-Frozen (actor i) i d' (inr super))

-- Let an interaction be of a banned actor, or be a command of administrators from one who is not
-- an administrator, or a command of the super-admin from anyone else. Then, wherever the driver
-- fails and whatever the handlers do, no table is changed and no callback is called.
pub dispatch-Frozen :
    (c : Config) (h : Handlers) (fuel : ℕ) (i : Interaction) (d : Desk)
    → Refused c i (tables_of d)
    → (tables_of (dispatch c h fuel i d).1 ≡ tables_of d)
      × ((dispatch c h fuel i d).1.calls ≡ d.calls)
unfolding dispatch
dispatch-Frozen c h fuel i d refused = elim (Bool-cases (actor i == "")) [
  | inl nobody ↦ rw nobody (refl, refl)
  | inr someone ↦ rw someone (
      actor_blocked-bind (actor i) (Frozen d) _ d (λ d' e. e)
        (λ d' e. elim (Bool-cases (is_blocked (actor i) (tables_of d))) [
          | inl blocked ↦ rw blocked e
          | inr free ↦ rw free (elim refused [
            | inl blocked ↦ absurd (different (sym blocked ∙ free))
            | inr other ↦ unblocked-Frozen c h fuel i d d' e other
          ])
        ]))
]
  where
    different : true ≡ false → ⊥
    different h = cc
