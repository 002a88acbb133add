-- ===== src/Commands/Accounts/Activation.antt =====
-- A search that is asked for before the credentials are there becomes, once they are saved, the job
-- that was asked for.
use uade_bot.Prelude.{
  ℕ, suc, ◌≡◌, refl, ap, ◌∙◌, String, Bool, true, false, if◌then◌else◌, ◌==◌, none, some, List, [],
  ◌∷◌, ◌++◌, eq_refl,
}
use uade_bot.Prelude.Decimal.{decimal}
use uade_bot.Prelude.Exec.{ok, ◌>>=◌}
use uade_bot.SqlStore.Statements.{Ciphertext, JobRow, Tables, transaction, execute, text_or}
use uade_bot.Commands.Desk.{Call, Config, nullable, on_database}
use uade_bot.Commands.Jobs.{existing}
use uade_bot.Commands.Searches.{
  find_pending, pending_row, save_pending_search, has_user, resolve_materia_name, materialize,
}
use uade_bot.Commands.Searches.Pending.{desk, kept, save_pending-kept, materialize-kept}
use uade_bot.Commands.Accounts.{
  save_credentials, resume_user, put_credentials, upsert_user, new_user, resumed,
}
use uade_bot.Commands.Accounts.Bans.{find_user-upsert}

-- the tables after credentials were saved
abbrev pub with_credentials : String → Ciphertext → Tables → Tables
with_credentials user secret t = record t {
  users = upsert_user (new_user user none) resumed t.users;
  credentials = put_credentials (record { discord_user_id = user; secret = secret }) t.credentials;
}

save_credentials-with_credentials :
    (user : String) (secret : Ciphertext) (t : Tables)
    → save_credentials user secret (record { tables = t; faults = [] })
      ≡ (ok tt, record { tables = with_credentials user secret t; faults = [] })
unfolding save_credentials resume_user transaction execute
save_credentials-with_credentials user secret t = refl

-- whoever saves credentials is stored from then on
has_user-with_credentials :
    (user : String) (secret : Ciphertext) (t : Tables)
    → has_user user (with_credentials user secret t) ≡ true
has_user-with_credentials user secret t =
    ap (λ o. elim o as (λ _. Bool) [ none ↦ false | some _ ↦ true ])
      (find_user-upsert (new_user user none) resumed user t.users (λ u. refl))
    ∙ rw (eq_refl user) refl

-- the active job of a request, with the number `id`, and NULL where it has no channel or no guild
abbrev pub asked_job : ℕ → String → String → String → String → String → String → JobRow
asked_job id user filters code channel guild label = record {
  id = decimal id;
  discord_user_id = user;
  filtros_json = filters;
  materia_code = some code;
  channel_id = if channel == "" then none else some channel;
  guild_id = if guild == "" then none else some guild;
  label = some label;
  status = "active";
  last_polled_at = none;
  last_outcome = none;
  last_notified_state = none;
  last_notified_cupos = none;
}

-- Let a user, stored or not, who has no pending search ask for one, then save credentials, and then
-- let the search be materialized. The driver does not fail, the name of the subject is answered
-- without a change of the desk, and the user has no search of this subject at this place. Then
-- exactly one job is created, with the filters, the channel, the guild and the label that were
-- asked for, and the other users' pending searches are left as they were.
pub materialize-saved :
    (c : Config) (fuel : ℕ) (user channel guild label filters name : String) (secret : Ciphertext)
    (t : Tables) (calls : List Call)
    → find_pending user t.pending_searches ≡ none
    → let row = pending_row user channel guild label filters c.now in
      let code = (c.decode filters).materia_codigo in
      let saved = desk (kept row (with_credentials user secret t)) calls in
      resolve_materia_name c user code saved ≡ (ok name, saved)
      → existing user (text_or (nullable guild)) ((c.decode filters).materia_codigo) t.jobs ≡ ""
      → let (r, d) =
          (on_database (save_pending_search user channel guild label filters c.now) >>= λ _.
          (on_database (save_credentials user secret) >>= λ _. materialize c (suc fuel) user))
            (desk t calls) in
        let job =
          asked_job t.next_job user filters (c.decode filters).materia_codigo channel guild label in
        (r ≡ ok (some (record { id = decimal t.next_job; created = true })))
        × (d.database.tables.jobs ≡ t.jobs ++ (job ∷ []))
        × (d.database.tables.pending_searches ≡ t.pending_searches)
materialize-saved c fuel user channel guild label filters name secret t calls none_pending named
      fresh =
    let row = pending_row user channel guild label filters c.now in
    rw
      (
        save_pending-kept user channel guild label filters c.now t none_pending,
        save_credentials-with_credentials user secret (kept row t),
        materialize-kept c fuel name row (with_credentials user secret t) calls none_pending named
            (has_user-with_credentials user secret t) fresh,
      )
      (refl, refl, refl)
