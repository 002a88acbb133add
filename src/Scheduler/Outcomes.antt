-- ===== src/Scheduler/Outcomes.antt =====
-- What the scheduler does with the outcome of a run: `handleOutcome` of scheduler.go and what it
-- calls, in the order of the calls. The state is written before an error is returned.
pub mod Pauses
pub mod Vacancies
pub mod Days
use uade_bot.Prelude.{
  ℕ, String, ◌==◌, Bool, true, false, ◌&&◌, ◌||◌, not, Option, none, some, List, [], ◌∷◌,
  if◌then◌else◌, Map, update, join,
}
use uade_bot.Prelude.Sort.{sort}
use uade_bot.Prelude.Int.{ℤ, pos, ltz, lez}
use uade_bot.Prelude.Exec.{Result, ok, err, panic, Exec, pure, fail, lift, ◌>>=◌, ◌>>◌}
use uade_bot.Scheduler.Types.{
  Vacancy, Outcome, Job, AccountState, NotificationState, Event, Error, outcome_failed,
  no_notification_state,
}
use uade_bot.Scheduler.Backoff.{signal_for, next_backoff, is_paused}
use uade_bot.Scheduler.Payload.{payload}
use uade_bot.Scheduler.Ports.{Act, Store, Ports, Host}

-- the key of one vacancy
unfoldable pub vacancy_key : Vacancy → String
unfolding join
vacancy_key v = join "|" (v.turno ∷ v.sede ∷ v.horario ∷ join "," v.dias ∷ [])

unfoldable pub keys : List Vacancy → List String
unfolding vacancy_key
keys [] = []
keys (v ∷ vs) = vacancy_key v ∷ keys vs

-- the running `max`, which starts at 0
unfoldable pub max_cupos : ℤ → List Vacancy → ℤ
max_cupos m [] = m
max_cupos m (v ∷ vs) = max_cupos (if ltz m v.cupos then v.cupos else m) vs

unfoldable pub vacancy_fingerprint : List Vacancy → String × ℤ
unfolding keys max_cupos sort
vacancy_fingerprint vs = (join "\n" (sort (keys vs)), max_cupos (pos 0) vs)

abbrev pub no_outcome : Outcome
no_outcome = record { code = ""; vacancies = []; materia_codigo = ""; materia_nombre = "" }

-- the reasons that are announced
abbrev pub announced : String → Bool
announced reason =
    reason == "needs_credentials"
    || (reason == "needs_new_start_url" || reason == "inscripciones_cerradas")

abbrev pub is_empty : {A : Type 0} → List A → Bool
is_empty [] = true
is_empty (_ ∷ _) = false

module _ {W : Type 0} where
  -- an operation on the world alone
  abbrev pub on_world : {A : Type 0} → Act W A → Exec Error (Host W) A
  on_world m h = let (r, w) = m h.world in (r, record h { world = w })

  -- `if s.store != nil`
  abbrev pub from_store :
      {A : Type 0}
      → Option (Store W)
      → (Store W → Act W A)
      → Exec Error (Host W) A
      → Exec Error (Host W) A
  from_store none f g = g
  from_store (some st) f g = on_world (f st)

  -- s.notifier.Notify, nothing without a notifier
  abbrev pub notify : Option (Event → Act W Unit) → Event → Exec Error (Host W) Unit
  notify none e = pure tt
  notify (some n) e = on_world (n e)

  -- a call that panics at `none`
  abbrev pub must : {A : Type 0} → Option A → Exec Error (Host W) A
  must none h = (panic, h)
  must (some a) h = (ok a, h)

module _ {W : Type 0} (p : Ports W) where
  unfoldable pub account_state : String → Exec Error (Host W) AccountState
  account_state account =
      from_store p.store (λ st. st.account_state account) (λ h. (ok (h.memory account), h))

  -- accountPaused
  unfoldable pub account_paused : String → Exec Error (Host W) Bool
  unfolding account_state
  account_paused account = do
    state ← account_state account
    λ h. (ok (is_paused state (p.now h.world)), h)

  unfoldable pub save_account_state : String → AccountState → Exec Error (Host W) Unit
  save_account_state account next =
      from_store p.store (λ st. st.save_account_state account next)
        (λ h. (ok tt, record h { memory = update h.memory account next }))

  -- the block under `if previous.LastPauseNotifiedReason != "" && s.store != nil`
  clear_pause : Job → AccountState → AccountState → Store W → Exec Error (Host W) Unit
  clear_pause job previous next st = do
    if previous.last_pause_notified_reason == "inscripciones_cerradas" && next.reason == ""
        then notify p.notifier (record {
          kind = "account_resumed";
          job = job;
          outcome = no_outcome;
          reason = previous.last_pause_notified_reason;
          delivery_key = "";
        })
        else pure tt
    on_world (st.mark_pause_notification job.account "")

  -- the two ends of `dispatchPause`: with a store and without
  mark_pause : Job → AccountState → Exec Error (Host W) Unit
  mark_pause job next =
      from_store p.store (λ st. st.mark_pause_notification job.account next.reason)
        (λ h. (
          ok tt,
          record h {
            memory =
                update h.memory job.account
                  (record (h.memory job.account) { last_pause_notified_reason = next.reason });
          },
        ))

  announce_pause : Job → AccountState → (Event → Act W Unit) → Exec Error (Host W) Unit
  unfolding mark_pause
  announce_pause job next notifier = do
    on_world (
        notifier (record {
          kind = "account_pause";
          job = job;
          outcome = record no_outcome { code = next.reason };
          reason = next.reason;
          delivery_key = "";
        }))
    mark_pause job next

  abbrev pub unless_nil :
      {A : Type 0} → Option A → (A → Exec Error (Host W) Unit) → Exec Error (Host W) Unit
  unless_nil none f = pure tt
  unless_nil (some a) f = f a

  unfoldable pub dispatch_pause : Job → AccountState → AccountState → Exec Error (Host W) Unit
  unfolding clear_pause announce_pause
  dispatch_pause job previous next =
      if announced next.reason
      then if previous.last_pause_notified_reason == next.reason
        then pure tt
        else unless_nil p.notifier (announce_pause job next)
      else if previous.last_pause_notified_reason == ""
      then pure tt
      else unless_nil p.store (clear_pause job previous next)

  unfoldable pub notification_state : String → Exec Error (Host W) NotificationState
  notification_state id =
      from_store p.store (λ st. st.notification_state id) (λ h. (ok (h.notify_mem id), h))

  unfoldable pub save_notification_state : String → NotificationState → Exec Error (Host W) Unit
  save_notification_state id state =
      from_store p.store (λ st. st.save_notification_state id state)
        (λ h. (ok tt, record h { notify_mem = update h.notify_mem id state }))

  -- notificationDeliveryKey
  unfoldable pub notification_delivery_key : Job → Outcome → String
  unfolding payload
  notification_delivery_key job outcome = p.digest (payload job outcome)

  -- the end of `dispatchVacancy`, from the call of the notifier
  announce_vacancy :
      Job → Outcome → NotificationState → (Event → Act W Unit) → Exec Error (Host W) Unit
  unfolding save_notification_state notification_delivery_key
  announce_vacancy job outcome state notifier = do
    let delivery_key = notification_delivery_key job outcome
    on_world (
        notifier (record {
          kind = "vacancy";
          job = job;
          outcome = outcome;
          reason = "";
          delivery_key = delivery_key;
        }))
    from_store p.store (λ st. st.commit_notification_delivery job.id delivery_key state)
        (save_notification_state job.id state)

  -- the rest of `dispatchVacancy` for vacancies that were found
  unfoldable pub found_vacancies : Job → Outcome → NotificationState → Exec Error (Host W) Unit
  unfolding announce_vacancy
  found_vacancies job outcome prior =
      let (key, max) = vacancy_fingerprint outcome.vacancies in
      if prior.vacancy_key == key && lez max prior.max_cupos
      then pure tt
      else unless_nil p.notifier
          (announce_vacancy job outcome (record { vacancy_key = key; max_cupos = max }))

  unfoldable pub dispatch_vacancy : Job → Outcome → Exec Error (Host W) Unit
  unfolding notification_state save_notification_state
  dispatch_vacancy job outcome = do
    prior ← notification_state job.id
    if outcome.code == "no_vacancies"
        then (if prior.vacancy_key == ""
            then pure tt
            else save_notification_state job.id no_notification_state)
        else if not (outcome.code == "found") || is_empty outcome.vacancies
        then pure tt
        else found_vacancies job outcome prior

  unfoldable pub handle_outcome : Job → Outcome → Exec Error (Host W) Unit
  handle_outcome job outcome = do
    now ← λ h. (ok (p.now h.world), h)
    from_store p.store (λ st. st.save_outcome job.id outcome now) (pure tt)
    state ← account_state job.account
    next ← must (next_backoff state (signal_for outcome.code) now)
    save_account_state job.account next
    dispatch_pause job state next
    dispatch_vacancy job outcome
