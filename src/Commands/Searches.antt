-- ===== src/Commands/Searches.antt =====
-- The searches that users create: buscar, savePendingSearch, materializePendingSearchResult and
-- resolveMateriaName of internal/discordhttp/commands.go.
use Prim.Native.String.{◌++◌ as append}
use uade_bot.Prelude.{
  ℕ, zero, suc, ◌+◌, String, ◌==◌, Bool, true, false, ◌&&◌, ◌||◌, not, Option, none, some, List, [],
  ◌∷◌, ◌++◌, if◌then◌else◌, leb, eqb,
}
use uade_bot.Prelude.Int.{ℤ, pos, lez, eqz, ◌+ℤ◌}
use uade_bot.Prelude.Decimal.{decimal, itoa}
use uade_bot.Prelude.Trim.{trim_space}
use uade_bot.Prelude.Exec.{Result, ok, err, panic, Exec, pure, fail, ◌>>=◌, ◌>>◌}
use uade_bot.Scheduler.Types.{Error, external}
use uade_bot.SqlStore.Statements.{
  JobRow, PendingRow, MateriaRow, UserRow, CredentialsRow, Tables, Database, Sql, statement, query,
  execute, find_user, text_or,
}
use uade_bot.Commands.Desk.{
  Desk, Action, Reply, card, modal, message, info, success, warning, danger, Config, JobFilters,
  on_database, call, job_created, nullable, Inserted, skipped, rejected, created, insert_after,
}
use uade_bot.Commands.Jobs.{same_search, existing, find_existing_job}
use uade_bot.Commands.Format.{csv_values, filter_valid_dias, matches_materia, filter_summary_block}
pub mod Pending

-- SELECT ... FROM pending_searches WHERE discord_user_id=?
unfoldable pub find_pending : String → List PendingRow → Option PendingRow
find_pending user [] = none
find_pending user (p ∷ ps) = if p.discord_user_id == user then some p else find_pending user ps

-- DELETE FROM pending_searches WHERE discord_user_id=? AND created_at=?
abbrev pub is_version : String → ℤ → PendingRow → Bool
is_version user version p = p.discord_user_id == user && eqz p.created_at version

unfoldable pub without_version : String → ℤ → List PendingRow → List PendingRow
without_version user version [] = []
without_version user version (p ∷ ps) =
    let rest = without_version user version ps in
    if is_version user version p then rest else p ∷ rest

unfoldable pub has_version : String → ℤ → List PendingRow → Bool
has_version user version [] = false
has_version user version (p ∷ ps) = is_version user version p || has_version user version ps

-- RowsAffected of the deletion is not 0
unfoldable pub delete_pending : String → ℤ → Sql Bool
unfolding without_version has_version
delete_pending user version = statement (λ t. (
  ok (has_version user version t.pending_searches),
  record t { pending_searches = without_version user version t.pending_searches },
))

-- the upsert, where a version that is not newer gets the next number
abbrev pub newer : PendingRow → PendingRow → PendingRow
newer old p = record p {
  created_at = if lez p.created_at old.created_at then old.created_at +ℤ pos 1 else p.created_at;
}

unfoldable pub upsert_pending : PendingRow → List PendingRow → List PendingRow
unfolding ◌+ℤ◌
upsert_pending p [] = p ∷ []
upsert_pending p (q ∷ qs) =
    if q.discord_user_id == p.discord_user_id then newer q p ∷ qs else q ∷ upsert_pending p qs

abbrev pub pending_row : String → String → String → String → String → ℤ → PendingRow
pending_row user channel guild label filters now = record {
  discord_user_id = user;
  filtros_json = filters;
  channel_id = nullable channel;
  guild_id = nullable guild;
  label = label;
  created_at = now;
}

unfoldable pub save_pending_search : String → String → String → String → String → ℤ → Sql Unit
unfolding upsert_pending
save_pending_search user channel guild label filters now = execute (λ t. record t {
  pending_searches =
      upsert_pending (pending_row user channel guild label filters now) t.pending_searches;
})

-- INSERT INTO materias ... ON CONFLICT(codigo) DO UPDATE
unfoldable pub upsert_materia : MateriaRow → List MateriaRow → List MateriaRow
upsert_materia m [] = m ∷ []
upsert_materia m (n ∷ ns) = if n.codigo == m.codigo then m ∷ ns else n ∷ upsert_materia m ns

abbrev pub set_materia : String → String → ℤ → Sql Unit
set_materia code name now = execute (λ t. record t {
  materias = upsert_materia (record { codigo = code; nombre = name; updated_at = now }) t.materias;
})

unfoldable pub find_materia : String → List MateriaRow → Option MateriaRow
find_materia code [] = none
find_materia code (m ∷ ms) = if m.codigo == code then some m else find_materia code ms

-- UPDATE materias SET nombre=?,updated_at=? WHERE codigo=?
unfoldable pub rename_materia : String → String → ℤ → List MateriaRow → List MateriaRow
rename_materia code name now [] = []
rename_materia code name now (m ∷ ms) =
    (if m.codigo == code then record m { nombre = name; updated_at = now } else m)
    ∷ rename_materia code name now ms

-- a search that the index idx_jobs_search_identity already holds, or a user that is not stored
abbrev pub has_user : String → Tables → Bool
has_user user t = elim (find_user user t.users) as (λ _. Bool) [ none ↦ false | some _ ↦ true ]

abbrev pub new_job : ℕ → String → String → String → Option String → Option String → String → JobRow
new_job id user filters code channel guild label = record {
  id = decimal id;
  discord_user_id = user;
  filtros_json = filters;
  materia_code = some code;
  channel_id = channel;
  guild_id = guild;
  label = some label;
  status = "active";
  last_polled_at = none;
  last_outcome = none;
  last_notified_state = none;
  last_notified_cupos = none;
}

unfoldable pub insertion :
    String
    → String
    → String
    → Option String
    → Option String
    → String
    → Tables
    → Result Error String × Tables
unfolding existing find_user decimal
insertion user filters code channel guild label t =
    if not (existing user (text_or guild) code t.jobs == "")
    then (err (external "UNIQUE constraint failed"), t)
    else if not (has_user user t)
    then (err (external "FOREIGN KEY constraint failed"), t)
    else (
      ok (decimal t.next_job),
      record t {
        jobs = t.jobs ++ (new_job t.next_job user filters code channel guild label ∷ []);
        next_job = t.next_job + 1;
      },
    )

unfoldable pub insert_job :
    String → String → String → Option String → Option String → String → Sql String
unfolding insertion
insert_job user filters code channel guild label =
    statement (insertion user filters code channel guild label)

-- what materializePendingSearchResult returns; its loop is on fuel, and none is its end
pub record JobCreation : Type 0 where
  pub id : String
  pub created : Bool

-- an error of findExistingJob counts as nothing found
abbrev pub found_or_none : Result Error String × Database → Result Error String × Database
found_or_none (ok id, d) = (ok id, d)
found_or_none (err e, d) = (ok "", d)
found_or_none (panic, d) = (panic, d)

module _ (c : Config) where
  abbrev pub asked : Option (String → String → Action String) → String → String → Action String
  asked none user code = pure ""
  asked (some resolve) user code = do
    name ← resolve user code
    if c.normalize name == ""
        then fail (external "materia resolver returned empty name")
        else pure (c.normalize name)

  abbrev pub cleaned : String → String → MateriaRow → Action String
  cleaned user code m =
      let clean = c.normalize m.nombre in
      if clean == ""
      then asked c.resolve_materia user code
      else if clean == trim_space m.nombre
      then pure clean
      else do
        on_database
            (execute (λ t. record t { materias = rename_materia code clean c.now t.materias }))
        pure clean

  abbrev pub from_cache : String → String → Option MateriaRow → Action String
  from_cache user code none = asked c.resolve_materia user code
  from_cache user code (some m) = cleaned user code m

  unfoldable pub resolve_materia_name : String → String → Action String
  unfolding find_materia rename_materia trim_space
  resolve_materia_name user code = do
    cached ← on_database (query (λ t. ok (find_materia code t.materias)))
    from_cache user code cached

  -- the statements of the transaction before the job's INSERT
  abbrev pub name_materia : String → String → Sql Unit
  name_materia code name = if name == "" then pure tt else set_materia code name c.now

  abbrev pub claim : String → ℤ → String → String → Sql Bool
  claim user version code name = do
    matched ← delete_pending user version
    if not matched then pure false else do name_materia code name; pure true

  abbrev after_rejection : String → PendingRow → String → Error → Action JobCreation
  after_rejection user p code e = do
    id ← on_database (λ d. found_or_none (find_existing_job user (text_or p.guild_id) code d))
    if id == "" then fail e else do
      on_database (delete_pending user p.created_at)
      pure (record { id = id; created = false })

  abbrev pub settle :
      Action (Option JobCreation)
      → String
      → PendingRow
      → String
      → Inserted
      → Action (Option JobCreation)
  settle again user p code skipped = again
  settle again user p code (rejected e) = do
    creation ← after_rejection user p code e
    pure (some creation)
  settle again user p code (created id) = pure (some (record { id = id; created = true }))

  abbrev pub claim_and_insert : String → PendingRow → String → String → Sql Inserted
  claim_and_insert user p code name =
      insert_after (claim user p.created_at code name)
        (insert_job user p.filtros_json code p.channel_id p.guild_id p.label)

  abbrev pub materialize_row :
      Action (Option JobCreation) → String → Option PendingRow → Action (Option JobCreation)
  materialize_row again user none = pure (some (record { id = ""; created = false }))
  materialize_row again user (some p) = do
    let code = (c.decode p.filtros_json).materia_codigo
    name ← resolve_materia_name user code
    inserted ← on_database (claim_and_insert user p code name)
    settle again user p code inserted

  -- materializePendingSearchResult
  unfoldable pub materialize : ℕ → String → Action (Option JobCreation)
  unfolding find_pending delete_pending resolve_materia_name insert_after insert_job
      find_existing_job upsert_materia
  materialize zero user = pure none
  materialize (suc fuel) user = do
    pending ← on_database (query (λ t. ok (find_pending user t.pending_searches)))
    materialize_row (materialize fuel user) user pending
