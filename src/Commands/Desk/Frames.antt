-- ===== src/Commands/Desk/Frames.antt =====
-- What an action on the desk leaves as it was: the rules for what only reads, and for what follows.
use uade_bot.Commands.Desk.{call}
use uade_bot.Commands.Desk.{Call}
use uade_bot.Commands.Desk.{String}
use uade_bot.Prelude.{◌≡◌, refl, Bool, true, false, List, [], ◌∷◌}
use uade_bot.Prelude.Exec.{Result, ok, err, panic, Exec, continue, ◌>>=◌}
use uade_bot.Scheduler.Types.{Error}
use uade_bot.SqlStore.Statements.{Database, Sql, Tables, run, query, execute, touch, committed}
use uade_bot.Commands.Desk.{Desk, Action, on_database, opened, prepared, inserted, insert_after}

-- the action ends in what satisfies the predicate, from whatever desk does
abbrev pub Stays : {A : Type 0} → (Desk → Type 0) → Action A → Type 0
Stays J m = (d : Desk) → J d → J (m d).1

-- the tables of a desk
abbrev pub tables_of : Desk → Tables
tables_of d = d.database.tables

-- the statement ends in one of these tables: the old, and what it makes of them
pub run-ends :
    {A : Type 0} (P : Tables → Type 0) (f : Tables → Result Error A × Tables) (t : Tables)
    (fs : List Bool)
    → P t
    → P (f t).1
    → P (run f t fs).1.tables
run-ends P f t [] h h' = h'
run-ends P f t (true ∷ fs) h h' = h
run-ends P f t (false ∷ fs) h h' = h'

pub query-keeps :
    {A : Type 0} (P : Tables → Type 0) (f : Tables → Result Error A) (d : Database)
    → P d.tables
    → P (query f d).1.tables
unfolding query
query-keeps P f d h = run-ends P (λ t. (f t, t)) d.tables d.faults h h

pub execute-ends :
    (P : Tables → Type 0) (f : Tables → Tables) (d : Database)
    → P d.tables
    → P (f d.tables)
    → P (execute f d).1.tables
unfolding execute
execute-ends P f d h h' = run-ends P (λ t. (ok tt, f t)) d.tables d.faults h h'

-- the rule of composition, for actions and for statements
pub Stays-bind :
    {A B S : Type 0} (J K : S → Type 0) (m : Exec Error S A) (f : A → Exec Error S B) (s : S)
    → ((s' : S) → J s' → K s')
    → J (m s).1
    → ((a : A) (s' : S) → J s' → K (f a s').1)
    → K ((m >>= f) s).1
Stays-bind {A} {B} {S} J K m f s weaker h h' = ends (m s) h
  where
    ends : (r : Result Error A × S) → J r.1 → K (let (a, s') = r in continue a f s').1
    ends (ok a, s') j = h' a s' j
    ends (err e, s') j = weaker s' j
    ends (panic, s') j = weaker s' j

-- the same tables, and no call since
abbrev pub Frozen : Desk → Desk → Type 0
Frozen d d' = (tables_of d' ≡ tables_of d) × (d'.calls ≡ d.calls)

pub call-ends :
    (P : Tables → Type 0) (configured : Bool) (x : Call) (d : Desk)
    → P (tables_of d)
    → P (tables_of (call configured x d).1)
call-ends P true x d h = h
call-ends P false x d h = h

-- a query's result is of the tables that it leaves
pub query-bind :
    {A B : Type 0} (K : Desk → Type 0) (f : Tables → A) (g : A → Action B) (d : Desk)
    → ((d' : Desk) → Frozen d d' → K d')
    → ((d' : Desk) → Frozen d d' → K (g (f (tables_of d)) d').1)
    → K ((on_database (query (λ t. ok (f t))) >>= g) d).1
unfolding query
query-bind {A} {B} K f g d h h' = ends d.database.faults
  where
    ends :
        (fs : List Bool)
        → K ((on_database (λ _. run (λ t. (ok (f t), t)) d.database.tables fs) >>= g) d).1
    ends [] =
        h' (record d { database = record { tables = d.database.tables; faults = [] } }) (refl, refl)
    ends (true ∷ fs) =
        h (record d { database = record { tables = d.database.tables; faults = fs } }) (refl, refl)
    ends (false ∷ fs) =
        h' (record d { database = record { tables = d.database.tables; faults = fs } }) (refl, refl)

-- an INSERT in a transaction: what it may have done, or nothing
module _ (P Q : Tables → Type 0) (weaker : (t : Tables) → P t → Q t) where
  committed-ends :
      {A : Type 0} (a : A) (r : Result Error Unit × Database)
      → Q r.1.tables
      → Q (committed a r).1.tables
  committed-ends a (ok _, d) h = h
  committed-ends a (err e, d) h = h
  committed-ends a (panic, d) h = h

  inserted-ends :
      (before : Tables) (r : Result Error String × Database)
      → P before
      → Q r.1.tables
      → Q (inserted before r).1.tables
  inserted-ends before (ok id, d) h h' =
      committed-ends _ (touch d) (run-ends Q (λ t. (ok tt, t)) d.tables d.faults h' h')
  inserted-ends before (err e, d) h h' = weaker before h
  inserted-ends before (panic, d) h h' = weaker before h

  prepared-ends :
      (before : Tables) (insert : Sql String) (r : Result Error Bool × Database)
      → ((d : Database) → P d.tables → Q (insert d).1.tables)
      → P before
      → P r.1.tables
      → Q (prepared before insert r).1.tables
  prepared-ends before insert (ok true, d) grows h h' =
      inserted-ends before (insert d) h (grows d h')
  prepared-ends before insert (ok false, d) grows h h' = weaker before h
  prepared-ends before insert (err e, d) grows h h' = weaker before h
  prepared-ends before insert (panic, d) grows h h' = weaker before h

  opened-ends :
      (prepare : Sql Bool) (insert : Sql String) (before : Tables)
      (r : Result Error Unit × Database)
      → ((d : Database) → P d.tables → P (prepare d).1.tables)
      → ((d : Database) → P d.tables → Q (insert d).1.tables)
      → P before
      → P r.1.tables
      → Q (opened prepare insert before r).1.tables
  opened-ends prepare insert before (ok _, d) keeps grows h h' =
      prepared-ends before insert (prepare d) grows h (keeps d h')
  opened-ends prepare insert before (err e, d) keeps grows h h' = weaker d.tables h'
  opened-ends prepare insert before (panic, d) keeps grows h h' = weaker d.tables h'

  -- What the statements before the INSERT keep, and the INSERT weakens, the transaction weakens.
  pub insert_after-ends :
      (prepare : Sql Bool) (insert : Sql String) (d : Database)
      → ((d : Database) → P d.tables → P (prepare d).1.tables)
      → ((d : Database) → P d.tables → Q (insert d).1.tables)
      → P d.tables
      → Q (insert_after prepare insert d).1.tables
  unfolding insert_after
  insert_after-ends prepare insert d keeps grows h =
      opened-ends prepare insert d.tables (touch d) keeps grows h
        (run-ends P (λ t. (ok tt, t)) d.tables d.faults h h)
