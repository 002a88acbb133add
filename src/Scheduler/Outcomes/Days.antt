-- ===== src/Scheduler/Outcomes/Days.antt =====
-- A vacancy whose days come in another order.
use mathlib.Core.List.{Permᴰ}
use text.Mathlib.TextLemmas.{append_cancel_left}
use uade_bot.Prelude.{ℕ, ◌≡◌, ◌≢◌, refl, sym, ◌∙◌, String, List, [], ◌∷◌, ==-false, join}
use uade_bot.Prelude.Sort.{sort}
use uade_bot.Prelude.Exec.{ok}
use uade_bot.Scheduler.Types.{Vacancy, Job, Outcome, Event}
use uade_bot.Scheduler.Ports.{Act, Host}
use uade_bot.Scheduler.Outcomes.{
  dispatch_vacancy, found_vacancies, vacancy_key, vacancy_fingerprint, keys, no_outcome,
  notification_delivery_key,
}
use uade_bot.Scheduler.Outcomes.Pauses.{in_memory}

abbrev pub one_found : Vacancy → Outcome
one_found v = record no_outcome { code = "found"; vacancies = v ∷ [] }

module _ {W : Type 0} (now : W → ℕ) (digest : List ℕ → String) (n : Event → Act W Unit) where
  abbrev pub vacancy_event : Job → Vacancy → Event
  vacancy_event job v = record {
    kind = "vacancy";
    job = job;
    outcome = one_found v;
    reason = "";
    delivery_key = notification_delivery_key (in_memory now digest n) job (one_found v);
  }

  fingerprint_one : (v : Vacancy) → (vacancy_fingerprint (v ∷ [])).0 ≡ vacancy_key v
  unfolding vacancy_fingerprint keys sort join
  fingerprint_one v = refl

  -- the days are the end of the key, as they are listed
  vacancy_key-days :
      (v : Vacancy) (days : List String)
      → vacancy_key v ≡ vacancy_key (record v { dias = days })
      → join "," v.dias ≡ join "," days
  unfolding vacancy_key join
  vacancy_key-days v days e = append_cancel_left "|" _ _ (
      append_cancel_left v.horario _ _ (
        append_cancel_left "|" _ _ (
          append_cancel_left v.sede _ _
            (append_cancel_left "|" _ _ (append_cancel_left v.turno _ _ e)))))

  -- Without a store: let a job's last notification be of one vacancy, and let the next poll find
  -- the same vacancy with its days listed in another order, so that joined by commas they are
  -- another text, and let the notifier answer without an error. Then the poll calls the notifier
  -- again: the world ends as that call left it.
  pub dispatch_vacancy-days :
      (job : Job) (v : Vacancy) (days : List String) (h : Host W) (w : W)
      → (h.notify_mem job.id).vacancy_key ≡ (vacancy_fingerprint (v ∷ [])).0
      → Permᴰ v.dias days
      → join "," v.dias ≢ join "," days
      → n (vacancy_event job (record v { dias = days })) h.world ≡ (ok tt, w)
      → let (r, h') =
          dispatch_vacancy (in_memory now digest n) job (one_found (record v { dias = days })) h in
        h'.world ≡ w
  unfolding dispatch_vacancy found_vacancies
  dispatch_vacancy-days job v days h w last turned other sent =
      let v' : Vacancy = record v { dias = days } in
      let differs : (h.notify_mem job.id).vacancy_key ≢ (vacancy_fingerprint (v' ∷ [])).0 = λ e.
        other
          (vacancy_key-days v days (sym (fingerprint_one v) ∙ sym last ∙ e ∙ fingerprint_one v')) in
      rw
        (==-false (h.notify_mem job.id).vacancy_key (vacancy_fingerprint (v' ∷ [])).0 differs, sent)
        refl
