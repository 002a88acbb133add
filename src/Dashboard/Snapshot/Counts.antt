-- ===== src/Dashboard/Snapshot/Counts.antt =====
-- The counts of jobs in a snapshot.
use uade_bot.Prelude.{append_assoc}
use uade_bot.Prelude.{append-nil}
use uade_bot.Dashboard.Snapshot.{map}
use uade_bot.Prelude.{text-cases}
use uade_bot.Prelude.Int.{ℤ}
use uade_bot.Dashboard.Labels.{safe_outcome}
use uade_bot.Dashboard.History.{load_history}
use uade_bot.Prelude.{
  ℕ, suc, ◌+◌, ◌≤◌, ◌≡◌, refl, subst, String, ◌==◌, Bool, true, false, Option, none, some, List, [],
  ◌∷◌, ◌++◌, map, length, arith, sym, ap, ◌∙◌, Bool-cases, eq_refl, if◌then◌else◌, inl, inr,
}
use uade_bot.Prelude.Dict
use uade_bot.Prelude.Dict.{Dict, value_or}
use uade_bot.Prelude.Exec.{Result, ok, err, panic}
use uade_bot.Dashboard.History.{HistoryRow}
use uade_bot.Dashboard.Snapshot.{
  Source, PauseRow, RawJob, Account, Health, Building, then_do, add_job, add_jobs, start_health,
  safe_filters, Job, Filters, with_job, newly_active, counted, fresh_account, job_of,
}

-- the numbers of the jobs that an account lists, in order
abbrev pub listed_ids : Option Account → List ℤ
listed_ids none = []
listed_ids (some a) = map (λ j. j.job_id) a.jobs

abbrev pub count_of : Option Account → ℕ
count_of none = 0
count_of (some a) = a.job_count

-- the numbers of a user's stored jobs, in order
unfoldable pub ids_of : String → List RawJob → List ℤ
ids_of user [] = []
ids_of user (r ∷ rs) = let rest = ids_of user rs in if r.user == user then r.id ∷ rest else rest

newly_active-counts :
    (known : Option Account) (pause : Option PauseRow) (h : Health)
    → ((newly_active known pause h).jobs_total ≡ h.jobs_total)
      × ((newly_active known pause h).jobs_active ≡ h.jobs_active)
      × ((newly_active known pause h).jobs_manually_paused ≡ h.jobs_manually_paused)
newly_active-counts (some a) pause h = (refl, refl, refl)
newly_active-counts none (some p) h = (refl, refl, refl)
newly_active-counts none none h = (refl, refl, refl)

counted-parts :
    (status : String) (h : Health)
    → (counted status h).jobs_active + (counted status h).jobs_manually_paused
      ≤ suc (h.jobs_active + h.jobs_manually_paused)
counted-parts status h = elim (text-cases status "active") [
  | inl e ↦ rw e (omega arith)
  | inr e ↦ rw e (one_more (status == "paused_by_user"))
]
  where
    one_more :
        (m : Bool)
        → h.jobs_active + (if m then h.jobs_manually_paused + 1 else h.jobs_manually_paused)
          ≤ suc (h.jobs_active + h.jobs_manually_paused)
    one_more true = omega arith
    one_more false = omega arith

map-snoc :
    {A B : Type 0} (f : A → B) (xs : List A) (x : A) → map f (xs ++ x ∷ []) ≡ map f xs ++ f x ∷ []
map-snoc f [] x = refl
map-snoc f (y ∷ xs) x = ap (λ ys. f y ∷ ys) (map-snoc f xs x)

length-snoc : {A : Type 0} (xs : List A) (x : A) → length (xs ++ x ∷ []) ≡ suc (length xs)
length-snoc [] x = refl
length-snoc (y ∷ xs) x = ap suc (length-snoc xs x)

module _ (s : Source) (pauses : Dict PauseRow) where
  with_job-ids :
      (j : Job) (last : Option ℤ) (fresh : Account) (known : Option Account)
      → fresh.jobs ≡ []
      → fresh.job_count ≡ 0
      → (listed_ids (some (with_job j last (value_or known fresh)))
          ≡ listed_ids known ++ j.job_id ∷ [])
        × (count_of (some (with_job j last (value_or known fresh))) ≡ suc (count_of known))
  with_job-ids j last fresh none e e' = (rw e refl, omega (arith, e'))
  with_job-ids j last fresh (some a) e e' = (map-snoc (λ k. k.job_id) a.jobs j, omega arith)

  -- the account of a job's user, with the job
  abbrev grown : RawJob → Option String → List HistoryRow → Building → Account
  grown r name rows b =
      let pause = Dict.get pauses r.user in
      let filters : Filters = record (safe_filters (s.unmarshal_filters r.filters)) {
        materia_nombre = name;
      } in
      with_job
        (job_of pause r filters (safe_outcome s.unmarshal_outcome r.outcome) (load_history rows))
        r.last (value_or (Dict.get b.grouped r.user) (fresh_account s pause r))

  own_listed :
      (r : RawJob) (name : Option String) (rows : List HistoryRow) (b : Building)
      → (listed_ids (Dict.get (Dict.put b.grouped r.user (grown r name rows b)) r.user)
          ≡ listed_ids (Dict.get b.grouped r.user) ++ (if r.user == r.user then r.id ∷ [] else []))
        × (count_of (Dict.get (Dict.put b.grouped r.user (grown r name rows b)) r.user)
            ≡ count_of (Dict.get b.grouped r.user) + (if r.user == r.user then 1 else 0))
  own_listed r name rows b =
      let pause = Dict.get pauses r.user in
      let filters : Filters = record (safe_filters (s.unmarshal_filters r.filters)) {
        materia_nombre = name;
      } in
      let (ids, count) =
        with_job-ids
          (job_of pause r filters (safe_outcome s.unmarshal_outcome r.outcome) (load_history rows))
          r.last (fresh_account s pause r) (Dict.get b.grouped r.user) refl refl in
      rw (Dict.get-put b.grouped r.user r.user (grown r name rows b), eq_refl r.user)
        (ids, omega (arith, count))

  -- a job goes to the account of its user, at the end
  add_job-listed :
      (r : RawJob) (name : Option String) (rows : List HistoryRow) (b : Building) (user : String)
      → let c = add_job s pauses r name rows b in
        (listed_ids (Dict.get c.grouped user)
          ≡ listed_ids (Dict.get b.grouped user) ++ (if r.user == user then r.id ∷ [] else []))
        × (count_of (Dict.get c.grouped user)
            ≡ count_of (Dict.get b.grouped user) + (if r.user == user then 1 else 0))
  unfolding add_job
  add_job-listed r name rows b user = elim (text-cases r.user user) [
    | inl e ↦
        subst
          (λ u.
            (listed_ids (Dict.get (Dict.put b.grouped r.user (grown r name rows b)) u)
              ≡ listed_ids (Dict.get b.grouped u) ++ (if r.user == u then r.id ∷ [] else []))
            × (count_of (Dict.get (Dict.put b.grouped r.user (grown r name rows b)) u)
                ≡ count_of (Dict.get b.grouped u) + (if r.user == u then 1 else 0)))
          e (own_listed r name rows b)
    | inr e ↦
        let other : (r.user == user) ≡ false = ground (arith, e) in
        rw (Dict.get-put b.grouped r.user user (grown r name rows b), other)
          (sym (append-nil (listed_ids (Dict.get b.grouped user))), omega arith)
  ]

then_do-ok :
    {A B : Type 0} (m : Result String A) (f : A → Result String B) (b : B)
    → then_do m f ≡ ok b
    → (a : A) × (f a ≡ ok b)
then_do-ok (ok a) f b e = (a, e)
then_do-ok (err x) f b e = cc
then_do-ok panic f b e = cc

ids-step :
    (user : String) (r : RawJob) (rs : List RawJob)
    → ((if r.user == user then r.id ∷ [] else []) ++ ids_of user rs ≡ ids_of user (r ∷ rs))
      × ((if r.user == user then 1 else 0) + length (ids_of user rs)
          ≡ length (ids_of user (r ∷ rs)))
unfolding ids_of
ids-step user r rs = elim (Bool-cases (r.user == user)) [
  | inl e ↦ rw e (refl, omega arith)
  | inr e ↦ rw e (refl, omega arith)
]

add_job-health :
    (s : Source) (pauses : Dict PauseRow) (r : RawJob) (name : Option String)
    (rows : List HistoryRow) (b : Building)
    → let h = (add_job s pauses r name rows b).health in
      (h.jobs_total ≡ suc b.health.jobs_total)
      × (h.jobs_active + h.jobs_manually_paused
          ≤ suc (b.health.jobs_active + b.health.jobs_manually_paused))
unfolding add_job
add_job-health s pauses r name rows b =
    let (total, active, manual) =
      newly_active-counts (Dict.get b.grouped r.user) (Dict.get pauses r.user)
        (counted r.status b.health) in
    (omega (arith, total), omega (arith, active, manual, counted-parts r.status b.health))

-- What the jobs `rs` make of `b`.
record Grew (rs : List RawJob) (b c : Building) : Type 0 where
  listed :
      (user : String)
      → listed_ids (Dict.get c.grouped user)
        ≡ listed_ids (Dict.get b.grouped user) ++ ids_of user rs
  counts :
      (user : String)
      → count_of (Dict.get c.grouped user)
        ≡ count_of (Dict.get b.grouped user) + length (ids_of user rs)
  total : c.health.jobs_total ≡ b.health.jobs_total + length rs
  parts :
      c.health.jobs_active + c.health.jobs_manually_paused
      ≤ b.health.jobs_active + b.health.jobs_manually_paused + length rs

add_jobs-Grew :
    (s : Source) (pauses : Dict PauseRow) (rs : List RawJob) (b c : Building)
    → add_jobs s pauses rs b ≡ ok c
    → Grew rs b c
unfolding add_jobs ids_of
add_jobs-Grew s pauses [] b c e =
    let same : b ≡ c = cc in
    subst (Grew [] b) same (record {
      listed = λ user. sym (append-nil (listed_ids (Dict.get b.grouped user)));
      counts = λ user. omega arith;
      total = omega arith;
      parts = omega arith;
    })
add_jobs-Grew s pauses (r ∷ rs) b c e =
    let loaded : Option String → List HistoryRow → Result String Building =
      λ name rows. add_jobs s pauses rs (add_job s pauses r name rows b) in
    let code = (safe_filters (s.unmarshal_filters r.filters)).materia_codigo in
    let (name, p) =
      then_do-ok (s.materia code) (λ name. then_do (s.history r.id) (λ rows. loaded name rows)) c
        e in
    let (rows, q) = then_do-ok (s.history r.id) (λ rows. loaded name rows) c p in
    let rest = add_jobs-Grew s pauses rs (add_job s pauses r name rows b) c q in
    (let (total, parts) = add_job-health s pauses r name rows b in
      record {
        listed = λ user.
            rest.listed user
            ∙ ap (λ ids. ids ++ ids_of user rs) (add_job-listed s pauses r name rows b user).0
            ∙ append_assoc (listed_ids (Dict.get b.grouped user)) _ (ids_of user rs)
            ∙ ap (λ ids. listed_ids (Dict.get b.grouped user) ++ ids) (ids-step user r rs).0;
        counts = λ user. omega (
          arith,
          rest.counts user,
          (add_job-listed s pauses r name rows b user).1,
          (ids-step user r rs).1,
        );
        total = omega (arith, rest.total, total);
        parts = omega (arith, rest.parts, parts);
      })

-- Where no query fails, each user's account lists the numbers of that user's stored jobs, each once
-- and in order, and counts as many; the health counts every stored job, and the active and the
-- manually paused jobs are not more than all.
pub add_jobs-counts :
    (s : Source) (pauses : List PauseRow) (by_user : Dict PauseRow) (rs : List RawJob)
    (b : Building)
    → add_jobs s by_user rs (record { grouped = []; health = start_health s pauses }) ≡ ok b
    → ((user : String)
        → (listed_ids (Dict.get b.grouped user) ≡ ids_of user rs)
          × (count_of (Dict.get b.grouped user) ≡ length (ids_of user rs)))
      × (b.health.jobs_total ≡ length rs)
      × (b.health.jobs_active + b.health.jobs_manually_paused ≤ length rs)
unfolding Dict.get
add_jobs-counts s pauses by_user rs b e =
    let start : Building = record { grouped = []; health = start_health s pauses } in
    let done = add_jobs-Grew s by_user rs start b e in
    (
      (λ user. (done.listed user, omega (arith, done.counts user))),
      omega (arith, done.total),
      omega (arith, done.parts),
    )
