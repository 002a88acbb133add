-- ===== src/App/Notifier/Recording.antt =====
-- What a delivery has recorded where it leaves no error on a route.
use uade_bot.Prelude.Exec.{continue}
use uade_bot.App.Notifier.{append}
use uade_bot.App.Notifier.{offered}
use uade_bot.App.Notifier.{unsent}
use uade_bot.Prelude.{update_self}
use uade_bot.Prelude.{
  ℕ, ◌≤◌, ◌≡◌, inl, inr, refl, sym, ap, ◌∙◌, String, true, Option, none, some, List, [], ◌∷◌,
  length, length-append, update, All, arith, Bool-cases, text-cases, eq_refl,
}
use uade_bot.Prelude.Int.{pos}
use uade_bot.Prelude.Exec.{Result, ok, err, panic, ◌>>=◌, after_bind, after_guard}
use uade_bot.Scheduler.Types.{Event, Error, NotificationFragment}
use uade_bot.Scheduler.Ports.{Act}
use uade_bot.App.Messages.{Message, notification_messages}
use uade_bot.App.Notifier.{
  Notifier, Fragments, Progress, fragment_key, agrees, fragment_of, refused, attempt, send, mark,
  deliver, deliver_route, deliver_all,
}

-- the map holds the message of a route, with its count and its fingerprint
abbrev pub Recorded : Fragments → String → Message → Type 0
Recorded delivered route m =
    (f : NotificationFragment) × (delivered (fragment_key route (pos m.fragment_index)) ≡ some f)
    × (agrees f m ≡ true)

abbrev pub Keeps : Fragments → Fragments → Type 0
Keeps before after = (k : String) (f : NotificationFragment) → before k ≡ some f → after k ≡ some f

abbrev pub Complete :
    Progress → (Fragments → Type 0) → {W : Type 0} → Result Error Progress × W → Type 0
Complete p Holds (ok p', w) =
    Keeps p.delivered p'.delivered
    × (length p.route_errors ≤ length p'.route_errors)
    × (length p'.route_errors ≡ length p.route_errors → Holds p'.delivered)
Complete p Holds (err e, w) = Unit
Complete p Holds (panic, w) = Unit

Keeps-update :
    (m : Fragments) (key : String) (f : NotificationFragment)
    → m key ≡ none
    → Keeps m (update m key (some f))
Keeps-update m key f empty k g e = elim (text-cases key k) [
  | inl same ↦ absurd (none_some (sym empty ∙ ap m same ∙ e))
  | inr other ↦ rw other e
]
  where
    none_some : none ≡ some g → ⊥
    none_some h = cc

module _ {W : Type 0} (n : Notifier W) (event : Event) where
  -- `p` after an update, and what is complete from there
  Complete-more :
      (p : Progress) (key : String) (f : NotificationFragment) (Holds Holds' : Fragments → Type 0)
      → p.delivered key ≡ none
      → ((after : Fragments) → after key ≡ some f → Holds after → Holds' after)
      → (r : Result Error Progress × W)
      → Complete (record p { delivered = update p.delivered key (some f) }) Holds r
      → Complete p Holds' r
  Complete-more p key f Holds Holds' empty more (ok p', w) (keeps, le, done) = (
    λ k g e. keeps k g (Keeps-update p.delivered key f empty k g e),
    le,
    λ same. more p'.delivered (keeps key f (update_self p.delivered key (some f))) (done same),
  )
  Complete-more p key f Holds Holds' empty more (err e, w) h = tt
  Complete-more p key f Holds Holds' empty more (panic, w) h = tt

  Complete-refused :
      (what route : String) (p : Progress) (Holds : Fragments → Type 0) (w : W)
      → Complete p Holds (ok (refused what route p), w)
  Complete-refused what route p Holds w = (
    λ k f e. e,
    omega (arith, length-append p.route_errors (append what (append " route=" route) ∷ [])),
    λ same. absurd (
        omega
          (arith, same, length-append p.route_errors (append what (append " route=" route) ∷ []))),
  )

  agrees-fragment_of :
      (route : String) (m : Message) (time : ℕ) → agrees (fragment_of route m time) m ≡ true
  agrees-fragment_of route m time = ground (arith, eq_refl m.fragment_fingerprint)

  unsent-Complete :
      (route : String) (m : Message) (rest : Progress → Act W Progress) (p : Progress) (w : W)
      (Holds : Fragments → Type 0)
      → p.delivered (fragment_key route (pos m.fragment_index)) ≡ none
      → ((p' : Progress) (w' : W) → Complete p' Holds (rest p' w'))
      → Complete p
          (λ delivered. Recorded delivered route m × Holds delivered)
          (unsent n event route m rest p w)
  unsent-Complete route m rest p w Holds empty h =
      after_bind (Complete p (λ delivered. Recorded delivered route m × Holds delivered))
        (λ e w. tt) (λ w. tt) (attempt (send n event route m)) _ w
        (λ sent w1.
          after_guard (Complete p goal) sent _ _ w1
            (Complete-refused "notification delivery failed" route p goal w1)
            (after_bind (Complete p goal) (λ e w. tt) (λ w. tt)
              (attempt (mark n event n.progress (fragment_of route m (n.now w1)))) _ w1
              (λ marked w2.
                after_guard (Complete p goal) marked _ _ w2
                  (Complete-refused "notification progress mark failed" route p goal w2)
                  (marked_now (n.now w1) w2))))
    where
      goal : Fragments → Type 0
      goal delivered = Recorded delivered route m × Holds delivered

      marked_now :
          (time : ℕ) (w2 : W)
          → Complete p goal (
              rest
                (record p {
                  delivered =
                      update p.delivered
                        (fragment_key route (pos m.fragment_index))
                        (some (fragment_of route m time));
                })
                w2)
      marked_now time w2 =
          Complete-more p (fragment_key route (pos m.fragment_index)) (fragment_of route m time)
            Holds goal empty
            (λ after e others.
              ((fragment_of route m time, e, agrees-fragment_of route m time), others))
            _ (h _ w2)

  offered-Complete :
      (route : String) (m : Message) (rest : Progress → Act W Progress) (p : Progress) (w : W)
      (Holds : Fragments → Type 0) (previous : Option NotificationFragment)
      → p.delivered (fragment_key route (pos m.fragment_index)) ≡ previous
      → ((p' : Progress) (w' : W) → Complete p' Holds (rest p' w'))
      → Complete p
          (λ delivered. Recorded delivered route m × Holds delivered)
          (offered n event route m rest p previous w)
  unfolding offered
  offered-Complete route m rest p w Holds (some f) e h = elim (Bool-cases (agrees f m)) [
    | inl same ↦ rw same (kept same (rest p w) (h p w))
    | inr other ↦ rw other (Complete-refused "notification delivery conflict" route p goal w)
  ]
    where
      goal : Fragments → Type 0
      goal delivered = Recorded delivered route m × Holds delivered

      kept :
          agrees f m ≡ true
          → (r : Result Error Progress × W) → Complete p Holds r
          → Complete p goal r
      kept same (ok p', w) (keeps, le, done) =
          (keeps, le, λ no_more. ((f, keeps _ f e, same), done no_more))
      kept same (err _, w) c = tt
      kept same (panic, w) c = tt
  offered-Complete route m rest p w Holds none e h = unsent-Complete route m rest p w Holds e h

  deliver-Complete :
      (route : String) (ms : List Message) (p : Progress) (w : W)
      → Complete p (λ delivered. All (Recorded delivered route) ms) (deliver n event route ms p w)
  unfolding deliver
  deliver-Complete route [] p w = (λ k f e. e, omega arith, λ _. tt)
  deliver-Complete route (m ∷ ms) p w =
      offered-Complete route m (λ p'. deliver n event route ms p') p w
        (λ delivered. All (Recorded delivered route) ms) _ refl (deliver-Complete route ms)

  -- every message of every route is recorded
  abbrev pub AllRecorded : List String → Fragments → Type 0
  AllRecorded rs delivered =
      All
        (λ route.
          (ms : List Message) × (notification_messages n.digest n.encode event route ≡ some ms)
          × All (Recorded delivered route) ms)
        rs

  Recorded-Keeps :
      (route : String) (ms : List Message) (before after : Fragments)
      → Keeps before after
      → All (Recorded before route) ms
      → All (Recorded after route) ms
  Recorded-Keeps route [] before after keeps h = tt
  Recorded-Keeps route (m ∷ ms) before after keeps ((f, e, same), rest) =
      ((f, keeps _ f e, same), Recorded-Keeps route ms before after keeps rest)

  Complete-then :
      (p p1 : Progress) (w1 : W) (Holds Later : Fragments → Type 0)
      → ((before after : Fragments) → Keeps before after → Holds before → Holds after)
      → Complete p Holds (ok p1, w1)
      → (r : Result Error Progress × W) → Complete p1 Later r
      → Complete p (λ delivered. Holds delivered × Later delivered) r
  Complete-then p p1 w1 Holds Later stays (keeps, le, done) (ok p2, w2) (keeps', le', done') = (
    λ k f e. keeps' k f (keeps k f e),
    omega (arith, le, le'),
    λ same. (
      stays p1.delivered p2.delivered keeps' (done (omega (arith, same, le, le'))),
      done' (omega (arith, same, le, le')),
    ),
  )
  Complete-then p p1 w1 Holds Later stays h (err e, w2) h' = tt
  Complete-then p p1 w1 Holds Later stays h (panic, w2) h' = tt

  pub deliver_all-Complete :
      (rs : List String) (p : Progress) (w : W)
      → Complete p (AllRecorded rs) (deliver_all n event rs p w)
  unfolding deliver_all
  deliver_all-Complete [] p w = (λ k f e. e, omega arith, λ _. tt)
  deliver_all-Complete (route ∷ rs) p w =
      by_messages (deliver_all-Complete rs) (notification_messages n.digest n.encode event route)
        refl
    where
      Now : List Message → Fragments → Type 0
      Now ms delivered =
          (ms' : List Message) × (notification_messages n.digest n.encode event route ≡ some ms')
          × All (Recorded delivered route) ms'

      after_route :
          ((p' : Progress) (w' : W) → Complete p' (AllRecorded rs) (deliver_all n event rs p' w'))
          → (ms : List Message) → notification_messages n.digest n.encode event route ≡ some ms
          → (r : Result Error Progress × W)
          → Complete p (λ delivered. All (Recorded delivered route) ms) r
          → Complete p
              (AllRecorded (route ∷ rs))
              (let (a, w') = r in continue a (deliver_all n event rs) w')
      after_route later ms e (ok p1, w1) (keeps, le, done) =
          Complete-then p p1 w1 (Now ms) (AllRecorded rs)
            (λ before after ks (ms', e', all).
              (ms', e', Recorded-Keeps route ms' before after ks all))
            (keeps, le, λ same. (ms, e, done same)) (deliver_all n event rs p1 w1) (later p1 w1)
      after_route later ms e (err x, w1) h = tt
      after_route later ms e (panic, w1) h = tt

      by_messages :
          ((p' : Progress) (w' : W) → Complete p' (AllRecorded rs) (deliver_all n event rs p' w'))
          → (o : Option (List Message)) → notification_messages n.digest n.encode event route ≡ o
          → Complete p
              (AllRecorded (route ∷ rs))
              ((deliver_route n event o route p >>= deliver_all n event rs) w)
      by_messages later none e = tt
      by_messages later (some ms) e =
          after_route later ms e (deliver n event route ms p w) (deliver-Complete route ms p w)
