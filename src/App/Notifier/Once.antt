-- ===== src/App/Notifier/Once.antt =====
-- What a later delivery of the same event sends: nothing that was recorded.

use uade_bot.App.Notifier.{offered}
use uade_bot.Prelude.{
  ◌≡◌, refl, ap, ◌∙◌, subst, String, ◌==◌, true, false, none, some, List, [], ◌∷◌, All,
}
use uade_bot.Prelude.Exec.{ok}
use uade_bot.Scheduler.Types.{Event, NotificationFragment}
use uade_bot.App.Messages.{Message}
use uade_bot.App.Notifier.{
  Notifier, ProgressStore, Fragments, Progress, recorded, deliver, deliver_all, send_missing,
  notify_vacancy, routes, notify,
}
use uade_bot.App.Notifier.Recording.{Recorded, Complete, AllRecorded, deliver_all-Complete}

module _ {W : Type 0} (n : Notifier W) (event : Event) where
  deliver-skip :
      (route : String) (ms : List Message) (p : Progress) (w : W)
      → All (Recorded p.delivered route) ms
      → deliver n event route ms p w ≡ (ok p, w)
  unfolding deliver offered
  deliver-skip route [] p w h = refl
  deliver-skip route (m ∷ ms) p w ((f, e, same), rest) =
      rw (e, same) (deliver-skip route ms p w rest)

  deliver_all-skip :
      (rs : List String) (p : Progress) (w : W)
      → AllRecorded n event rs p.delivered
      → deliver_all n event rs p w ≡ (ok p, w)
  unfolding deliver_all
  deliver_all-skip [] p w h = refl
  deliver_all-skip (route ∷ rs) p w ((ms, e, all), rest) =
      rw (e, deliver-skip route ms p w all) (deliver_all-skip rs p w rest)

  -- what the store reads back for a fragment: the same count and the same fingerprint
  abbrev pub ReadsBack : Fragments → Fragments → Type 0
  ReadsBack delivered read =
      (k : String) (f : NotificationFragment)
      → delivered k ≡ some f
      → (g : NotificationFragment) × (read k ≡ some g)
        × (g.fragment_count ≡ f.fragment_count)
        × (g.fragment_fingerprint ≡ f.fragment_fingerprint)

  Recorded-ReadsBack :
      (route : String) (ms : List Message) (delivered read : Fragments)
      → ReadsBack delivered read
      → All (Recorded delivered route) ms
      → All (Recorded read route) ms
  Recorded-ReadsBack route [] delivered read back h = tt
  Recorded-ReadsBack route (m ∷ ms) delivered read back ((f, e, same), rest) =
      let (g, e', count, print) = back _ f e in
      ((g, e', rw (count, print) same), Recorded-ReadsBack route ms delivered read back rest)

  AllRecorded-ReadsBack :
      (rs : List String) (delivered read : Fragments)
      → ReadsBack delivered read
      → AllRecorded n event rs delivered
      → AllRecorded n event rs read
  AllRecorded-ReadsBack [] delivered read back h = tt
  AllRecorded-ReadsBack (route ∷ rs) delivered read back ((ms, e, all), rest) = (
    (ms, e, Recorded-ReadsBack route ms delivered read back all),
    AllRecorded-ReadsBack rs delivered read back rest,
  )

  complete :
      (rs : List String) (p after : Progress) (w w' : W)
      → deliver_all n event rs p w ≡ (ok after, w')
      → p.route_errors ≡ []
      → after.route_errors ≡ []
      → AllRecorded n event rs after.delivered
  complete rs p after w w' e none_before none_after =
      let h : Complete p (AllRecorded n event rs) (ok after, w') =
        subst (Complete p (AllRecorded n event rs)) e (deliver_all-Complete n event rs p w) in
      h.2 (rw (none_before, none_after) refl)

  send_missing-skip :
      (delivered : Fragments) (w : W)
      → AllRecorded n event (routes n event) delivered
      → send_missing n event delivered w ≡ (ok tt, w)
  unfolding send_missing
  send_missing-skip delivered w all =
      rw
        (deliver_all-skip (routes n event) (record { delivered = delivered; route_errors = [] }) w
          all)
        refl

  notify_vacancy-skip :
      (st : ProgressStore W) (read : List NotificationFragment) (w w' : W)
      → (event.delivery_key == "") ≡ false
      → st.delivered_fragments event.job.id event.delivery_key w ≡ (ok read, w')
      → AllRecorded n event (routes n event) (recorded (λ _. none) read)
      → notify_vacancy n event (some st) w ≡ (ok tt, w')
  notify_vacancy-skip st read w w' keyed reads all =
      rw (keyed, reads) (send_missing-skip (recorded (λ _. none) read) w' all)

-- Let a vacancy be delivered through a progress store, without an error on a route, and let the
-- store later give back the count and the fingerprint of each fragment delivered. Then a new
-- delivery of the event answers no error, and does nothing but read the progress: it sends no
-- message and marks no fragment.
pub notify_once :
    {W : Type 0} (n : Notifier W) (event : Event) (st : ProgressStore W) (before : Progress)
    (after : Progress) (w1 w2 w3 w4 : W) (read : List NotificationFragment)
    → (event.kind == "vacancy") ≡ true
    → (event.delivery_key == "") ≡ false
    → n.progress ≡ some st
    → before.route_errors ≡ []
    → deliver_all n event (routes n event) before w1 ≡ (ok after, w2)
    → after.route_errors ≡ []
    → st.delivered_fragments event.job.id event.delivery_key w3 ≡ (ok read, w4)
    → ReadsBack n event after.delivered (recorded (λ _. none) read)
    → notify n event w3 ≡ (ok tt, w4)
unfolding notify
notify_once n event st before after w1 w2 w3 w4 read vacancy keyed with_store clean sent no_error
      reads back =
    let all =
      AllRecorded-ReadsBack n event (routes n event) after.delivered (recorded (λ _. none) read)
        back (complete n event (routes n event) before after w1 w2 sent clean no_error) in
    rw vacancy (
      ap (λ o. notify_vacancy n event o w3) with_store
      ∙ notify_vacancy-skip n event st read w3 w4 keyed reads all)
