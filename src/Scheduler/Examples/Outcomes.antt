-- ===== src/Scheduler/Examples/Outcomes.antt =====
-- Outcomes of runs, with a notifier that writes the events down.
use uade_bot.Prelude.{true}
use uade_bot.Prelude.{false}
use uade_bot.Scheduler.Types.{Vacancy}
use uade_bot.Prelude.{join, eq_iff}
use uade_bot.Scheduler.Outcomes.Days.{one_found, vacancy_event, dispatch_vacancy-days}
use uade_bot.Prelude.{◌≢◌}
use uade_bot.Prelude.{join}
use uade_bot.Scheduler.Examples.{Vacancy}
use uade_bot.Scheduler.Examples.{pos}
use mathlib.Core.List.{Permᴰ}
use uade_bot.Prelude.{ℕ, ◌≡◌, refl, String, List, [], ◌∷◌}
use uade_bot.Prelude.Exec.{ok}
use uade_bot.Scheduler.Types.{Event, no_account_state, no_notification_state}
use uade_bot.Scheduler.Ports.{Act, Host}
use uade_bot.Scheduler.Outcomes.{vacancy_fingerprint, dispatch_vacancy}
use uade_bot.Scheduler.Outcomes.Pauses.{in_memory}
use uade_bot.Scheduler.Outcomes.Vacancies.{vacancy_fingerprint-perm}
use uade_bot.Scheduler.Examples.{first_job, morning, evening, found_outcome}

abbrev clock : List Event → ℕ
clock w = 7

abbrev no_digest : List ℕ → String
no_digest _ = "d"

abbrev log : Event → Act (List Event) Unit
log e w = (ok tt, e ∷ w)

abbrev quiet : Host (List Event)
quiet = record {
  memory = λ _. no_account_state;
  notify_mem = λ _. no_notification_state;
  world = [];
}

either_order : Permᴰ (morning ∷ evening ∷ []) (evening ∷ morning ∷ [])
either_order = Permᴰ.swap refl refl

vacancy_fingerprint-perm_example :
    vacancy_fingerprint (morning ∷ evening ∷ []) ≡ vacancy_fingerprint (evening ∷ morning ∷ [])
vacancy_fingerprint-perm_example = vacancy_fingerprint-perm either_order

abbrev told : Host (List Event)
told =
    (dispatch_vacancy (in_memory clock no_digest log) first_job
      (found_outcome (morning ∷ evening ∷ [])) quiet).1

abbrev told_once : Host (List Event)
told_once = record quiet {
  notify_mem =
      λ _. record { vacancy_key = (vacancy_fingerprint (morning ∷ [])).0; max_cupos = pos 3 };
}

other_text : join "," morning.dias ≢ join "," ("Mi" ∷ "Lu" ∷ [])
unfolding join
other_text e =
    let same : false ≡ true = (eq_iff (join "," morning.dias) (join "," ("Mi" ∷ "Lu" ∷ []))).1 e in
    cc

dispatch_vacancy-days_example :
    let turned : Vacancy = record morning { dias = "Mi" ∷ "Lu" ∷ [] } in
    let (r, h') =
      dispatch_vacancy (in_memory clock no_digest log) first_job (one_found turned) told_once in
    h'.world ≡ vacancy_event clock no_digest log first_job turned ∷ []
dispatch_vacancy-days_example =
    dispatch_vacancy-days clock no_digest log first_job morning ("Mi" ∷ "Lu" ∷ []) told_once
      (vacancy_event clock no_digest log first_job (record morning { dias = "Mi" ∷ "Lu" ∷ [] })
        ∷ [])
      refl (Permᴰ.swap refl refl) other_text refl
