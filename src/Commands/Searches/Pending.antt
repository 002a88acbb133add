-- ===== src/Commands/Searches/Pending.antt =====
-- The steps by which a kept search becomes a job.
use uade_bot.Prelude.{
  ℕ, suc, ◌+◌, ◌≡◌, refl, sym, ap, ◌∙◌, String, ◌==◌, true, false, none, some, List, [], ◌∷◌, ◌++◌,
  if◌then◌else◌, arith, Bool-cases, eq_refl, inl, inr,
}
use uade_bot.Prelude.Int.{ℤ, pos, negsuc, eqz}
use uade_bot.Prelude.Decimal.{decimal}
use uade_bot.Prelude.Exec.{ok}
use uade_bot.SqlStore.Statements.{PendingRow, MateriaRow, Tables, query, execute, text_or}
use uade_bot.Commands.Desk.{Desk, Call, Config, insert_after, created}
use uade_bot.Commands.Jobs.{existing}
use uade_bot.Commands.Searches.{
  find_pending, without_version, has_version, delete_pending, upsert_pending, pending_row,
  save_pending_search, new_job, insertion, insert_job, has_user, resolve_materia_name, materialize,
  upsert_materia, claim_and_insert,
}

-- a desk whose driver does not fail
abbrev pub desk : Tables → List Call → Desk
desk t calls = record { database = record { tables = t; faults = [] }; calls = calls }

some-none : {A : Type 0} (a : A) → some a ≡ none → ⊥
some-none a h = cc

eqz_self : (z : ℤ) → eqz z z ≡ true
eqz_self (pos n) = ground arith
eqz_self (negsuc n) = ground arith

-- no row is of this user
not_here :
    (user : String) (q : PendingRow) (qs : List PendingRow)
    → find_pending user (q ∷ qs) ≡ none
    → ((q.discord_user_id == user) ≡ false) × (find_pending user qs ≡ none)
unfolding find_pending
not_here user q qs e = elim (Bool-cases (q.discord_user_id == user)) [
  | inl same ↦ absurd (some-none q (sym (rw same refl) ∙ e))
  | inr other ↦ (other, sym (rw other refl) ∙ e)
]

module _ (p : PendingRow) where
  abbrev owner : String
  owner = p.discord_user_id

  upsert_pending-new :
      (ps : List PendingRow) → find_pending owner ps ≡ none → upsert_pending p ps ≡ ps ++ (p ∷ [])
  unfolding upsert_pending
  upsert_pending-new [] e = refl
  upsert_pending-new (q ∷ qs) e =
      let (other, rest) = not_here owner q qs e in
      rw other (ap (λ rest. q ∷ rest) (upsert_pending-new qs rest))

  find_pending-last :
      (ps : List PendingRow)
      → find_pending owner ps ≡ none
      → find_pending owner (ps ++ (p ∷ [])) ≡ some p
  unfolding find_pending
  find_pending-last [] e = rw (eq_refl owner) refl
  find_pending-last (q ∷ qs) e =
      let (other, rest) = not_here owner q qs e in rw other (find_pending-last qs rest)

  has_version-last :
      (ps : List PendingRow)
      → find_pending owner ps ≡ none
      → has_version owner p.created_at (ps ++ (p ∷ [])) ≡ true
  unfolding has_version
  has_version-last [] e = rw (eq_refl owner, eqz_self p.created_at) refl
  has_version-last (q ∷ qs) e =
      let (other, rest) = not_here owner q qs e in rw other (has_version-last qs rest)

  without_version-last :
      (ps : List PendingRow)
      → find_pending owner ps ≡ none
      → without_version owner p.created_at (ps ++ (p ∷ [])) ≡ ps
  unfolding without_version
  without_version-last [] e = rw (eq_refl owner, eqz_self p.created_at) refl
  without_version-last (q ∷ qs) e =
      let (other, rest) = not_here owner q qs e in
      rw other (ap (λ rest. q ∷ rest) (without_version-last qs rest))

-- the tables after the search was kept
abbrev pub kept : PendingRow → Tables → Tables
kept p t = record t { pending_searches = t.pending_searches ++ (p ∷ []) }

pub save_pending-kept :
    (user channel guild label filters : String) (now : ℤ) (t : Tables)
    → find_pending user t.pending_searches ≡ none
    → save_pending_search user channel guild label filters now (record { tables = t; faults = [] })
      ≡ (
        ok tt,
        record { tables = kept (pending_row user channel guild label filters now) t; faults = [] },
      )
unfolding save_pending_search execute
save_pending-kept user channel guild label filters now t e =
    rw (upsert_pending-new (pending_row user channel guild label filters now) t.pending_searches e)
      refl

-- the tables after the materialization
abbrev named_materias : Config → String → String → Tables → List MateriaRow
named_materias c code name t =
    if name == ""
    then t.materias
    else upsert_materia (record { codigo = code; nombre = name; updated_at = c.now }) t.materias

abbrev materialized : Config → String → String → PendingRow → Tables → Tables
materialized c code name p t = record t {
  materias = named_materias c code name t;
  jobs =
      t.jobs
      ++ (new_job t.next_job p.discord_user_id p.filtros_json code p.channel_id p.guild_id p.label
          ∷ []);
  next_job = t.next_job + 1;
}

claim_and_insert-created :
    (c : Config) (code name : String) (p : PendingRow) (t : Tables)
    → find_pending p.discord_user_id t.pending_searches ≡ none
    → has_user p.discord_user_id t ≡ true
    → existing p.discord_user_id (text_or p.guild_id) code t.jobs ≡ ""
    → claim_and_insert c p.discord_user_id p code name (record { tables = kept p t; faults = [] })
      ≡ (
        ok (created (decimal t.next_job)),
        record { tables = materialized c code name p t; faults = [] },
      )
unfolding delete_pending insert_after insert_job insertion execute
claim_and_insert-created c code name p t none_pending stored fresh =
    elim (Bool-cases (name == "")) [
      | inl blank ↦
          rw
            (
              blank,
              has_version-last p t.pending_searches none_pending,
              without_version-last p t.pending_searches none_pending,
              fresh,
              stored,
            )
            refl
      | inr given ↦
          rw
            (
              given,
              has_version-last p t.pending_searches none_pending,
              without_version-last p t.pending_searches none_pending,
              fresh,
              stored,
            )
            refl
    ]

pub materialize-kept :
    (c : Config) (fuel : ℕ) (name : String) (p : PendingRow) (t : Tables) (calls : List Call)
    → find_pending p.discord_user_id t.pending_searches ≡ none
    → let code = (c.decode p.filtros_json).materia_codigo in
      resolve_materia_name c p.discord_user_id code (desk (kept p t) calls)
        ≡ (ok name, desk (kept p t) calls)
      → has_user p.discord_user_id t ≡ true
      → existing p.discord_user_id
          (text_or p.guild_id)
          ((c.decode p.filtros_json).materia_codigo)
          t.jobs
        ≡ ""
      → materialize c (suc fuel) p.discord_user_id (desk (kept p t) calls) ≡ (
        ok (some (record { id = decimal t.next_job; created = true })),
        desk (materialized c (c.decode p.filtros_json).materia_codigo name p t) calls,
      )
unfolding materialize query
materialize-kept c fuel name p t calls none_pending named stored fresh =
    rw
      (
        find_pending-last p t.pending_searches none_pending,
        named,
        claim_and_insert-created c (c.decode p.filtros_json).materia_codigo name p t none_pending
            stored fresh,
      )
      refl
