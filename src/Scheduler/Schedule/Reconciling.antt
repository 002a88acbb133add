-- ===== src/Scheduler/Schedule/Reconciling.antt =====
-- What `Add` and `Reconcile` make of the ids that are scheduled.
use uade_bot.Prelude.Exec.{panic}
use uade_bot.Scheduler.Schedule.{err}
use uade_bot.Scheduler.Schedule.{accept}
use uade_bot.Scheduler.Schedule.{ok}
use uade_bot.Scheduler.Schedule.{Error}
use uade_bot.Scheduler.Schedule.{Result}
use uade_bot.Scheduler.Schedule.{desired_jobs}
use uade_bot.Prelude.{contains}
use uade_bot.Prelude.{
  ℕ, ◌+◌, ◌≡◌, refl, ◌∙◌, subst, String, Bool, false, Option, none, some, List, [], ◌∷◌, arith,
  eq_iff, Bool-cases, inl, inr, if◌then◌else◌, Map, update,
}
use uade_bot.Prelude.{◌&&◌, not, contains}
use uade_bot.Prelude.Dict
use uade_bot.Prelude.Dict.{Dict}
use uade_bot.Scheduler.Types.{Job, PersistedJob}
use uade_bot.Scheduler.Schedule.{Schedule, apply_desired, put_desired, drop_stale}

-- the entry of the first map, or else of the second
abbrev prefer : Option Job → Option Job → Option Job
prefer none o = o
prefer (some job) o = some job

put_desired-get :
    (d : Dict Job) (added : ℕ) (by_id : Dict Job) (id : String)
    → Dict.Distinct d
    → Dict.get (put_desired d (added, by_id)).1 id ≡ prefer (Dict.get d id) (Dict.get by_id id)
unfolding put_desired Dict.get
put_desired-get [] added by_id id h = refl
put_desired-get ((k, job) ∷ d) added by_id id h =
    put_desired-get d (if Dict.has by_id k then added else added + 1) (Dict.put by_id k job) id h.1
    ∙ ground (arith, eq_iff k id, Dict.get-put by_id k id job, h.0)

-- an id that the second loop drops
abbrev stale : Dict Job → List String → String → Bool
stale desired ids id = contains ids id && not (Dict.has desired id)

drop_stale-get :
    (desired : Dict Job) (ids : List String) (by_id : Dict Job) (queued : Map Bool) (id : String)
    → (Dict.get (drop_stale desired ids (by_id, queued)).0 id
        ≡ (if stale desired ids id then none else Dict.get by_id id))
      × ((drop_stale desired ids (by_id, queued)).1 id
          ≡ (if stale desired ids id then false else queued id))
unfolding drop_stale
drop_stale-get desired [] by_id queued id = (refl, refl)
drop_stale-get desired (k ∷ ids) by_id queued id = elim (Bool-cases (Dict.has desired k)) [
  | inl kept ↦
      rw (kept, drop_stale)
        (
          ground (arith, eq_iff k id, drop_stale-get desired ids by_id queued id),
          ground (arith, eq_iff k id, drop_stale-get desired ids by_id queued id),
        )
  | inr dropped ↦
      let rest = drop_stale-get desired ids (Dict.remove by_id k) (update queued k false) id in
      rw (dropped, drop_stale)
        (
          ground (arith, eq_iff k id, Dict.get-remove by_id k id, rest),
          ground (arith, eq_iff k id, rest),
        )
]

accept-ok :
    (r : PersistedJob) (built : Result Error Job) (rest : Job → Result Error (Dict Job))
    (e : Dict Job)
    → accept r built rest ≡ ok e
    → (job : Job) × (rest job ≡ ok e)
accept-ok r (err x) rest e h = cc
accept-ok r panic rest e h = cc
accept-ok r (ok job) rest e h = (job, ground arith)

desired_jobs-Distinct :
    (factory : PersistedJob → Result Error Job) (records : List PersistedJob) (d e : Dict Job)
    → Dict.Distinct d
    → desired_jobs factory records d ≡ ok e
    → Dict.Distinct e
unfolding desired_jobs
desired_jobs-Distinct factory [] d e h p = let same : d ≡ e = cc in subst Dict.Distinct same h
desired_jobs-Distinct factory (r ∷ rs) d e h p =
    let (job, q) =
      accept-ok r (factory r) (λ job. desired_jobs factory rs (Dict.put d job.id job)) e p in
    desired_jobs-Distinct factory rs (Dict.put d job.id job) e (Dict.put-Distinct d job.id job h) q

apply_desired-exact :
    (desired : Dict Job) (records : List PersistedJob) (s : Schedule) (id : String)
    → Dict.Distinct desired
    → (Dict.get (apply_desired desired records s).1.by_id id ≡ Dict.get desired id)
      × ((apply_desired desired records s).1.queued id
          ≡ (if Dict.has s.by_id id && not (Dict.has desired id) then false else s.queued id))
unfolding apply_desired Dict.has
apply_desired-exact desired records s id h =
    let by_id = (put_desired desired (0, s.by_id)).1 in
    let dropped = drop_stale-get desired (Dict.keys by_id) by_id s.queued id in
    let merged = put_desired-get desired 0 s.by_id id h in
    let all = Dict.contains-keys by_id id in
    (ground (arith, dropped, merged, all), ground (arith, dropped, merged, all))

-- Let the jobs of the stored records be built without error. Then, after the locked part of
-- `Reconcile`, the ids that are scheduled are exactly those of these jobs, each with its new job;
-- an id that was scheduled and is no longer wanted loses its mark of a queued poll, and all other
-- marks stay.
pub reconciled-exact :
    (factory : PersistedJob → Result Error Job) (records : List PersistedJob) (desired : Dict Job)
    (s : Schedule) (id : String)
    → desired_jobs factory records [] ≡ ok desired
    → (Dict.get (apply_desired desired records s).1.by_id id ≡ Dict.get desired id)
      × ((apply_desired desired records s).1.queued id
          ≡ (if Dict.has s.by_id id && not (Dict.has desired id) then false else s.queued id))
reconciled-exact factory records desired s id built =
    apply_desired-exact desired records s id
      (desired_jobs-Distinct factory records [] desired tt built)
