-- ===== src/App/Notifier.antt =====
-- outboundNotifier.Notify of internal/app/runtime.go: it sends what the progress does not hold yet.
pub mod Recording
pub mod Once
use Prim.Native.String.{◌++◌ as append}
use uade_bot.Prelude.{
  ℕ, zero, suc, ◌+◌, String, ◌==◌, Bool, true, false, ◌&&◌, ◌||◌, not, Option, none, some, List, [],
  ◌∷◌, ◌++◌, if◌then◌else◌, eqb, length, join, Map, update,
}
use uade_bot.Prelude.Int.{ℤ, pos, eqz}
use uade_bot.Prelude.Decimal.{itoa}
use uade_bot.Prelude.Runes.{rune_count, drop_runes}
use uade_bot.Prelude.Exec.{Result, ok, err, panic, Exec, pure, fail, ◌>>=◌, ◌>>◌}
use uade_bot.Scheduler.Types.{Job, Event, Error, external, NotificationFragment}
use uade_bot.Scheduler.Ports.{Act}
use uade_bot.App.Messages.{
  Card, Component, Message, event_card, notification_text, notification_messages,
}
use text.Mathlib.Text.{starts_with}

-- the operations of `discordSender` that are called, and of `notificationProgressStore`
pub record Sender (W : Type 0) : Type 0 where
  pub send_dm_card : String → Card → String → String → List Component → Act W Unit
  pub send_mention_card : String → String → Card → String → String → List Component → Act W Unit

pub record ProgressStore (W : Type 0) : Type 0 where
  pub delivered_fragments : String → String → Act W (List NotificationFragment)
  pub mark_delivered : String → String → NotificationFragment → Act W Unit

-- `digest` and `encode` are sha256 in hexadecimal and JSON's encoding, and `now` is the clock.
pub record Notifier (W : Type 0) : Type 0 where
  pub discord : Sender W
  pub progress : Option (ProgressStore W)
  pub digest : List ℕ → String
  pub encode : Component → List ℕ
  pub now : W → ℕ

abbrev pub Fragments : Type 0
Fragments = Map (Option NotificationFragment)

-- the map `delivered` and the slice `routeErrors`
pub record Progress : Type 0 where
  pub delivered : Fragments
  pub route_errors : List String

unfoldable pub fragment_key : String → ℤ → String
unfolding itoa
fragment_key route index = append route (append "/" (itoa index))

unfoldable pub strip_leading_mention : String → String → String
strip_leading_mention content account =
    let mention = append "<@" (append account ">\n") in
    if starts_with content mention then drop_runes (rune_count mention) content else content

abbrev pub recorded : Fragments → List NotificationFragment → Fragments
recorded m [] = m
recorded m (f ∷ fs) = recorded (update m (fragment_key f.route f.fragment_index) (some f)) fs

-- what the loop compares a message with
abbrev pub agrees : NotificationFragment → Message → Bool
agrees f m =
    eqz f.fragment_count (pos m.fragment_count) && f.fragment_fingerprint == m.fragment_fingerprint

abbrev pub fragment_of : String → Message → ℕ → NotificationFragment
fragment_of route m time = record {
  route = route;
  fragment_index = pos m.fragment_index;
  fragment_count = pos m.fragment_count;
  fragment_fingerprint = m.fragment_fingerprint;
  delivered_at = time;
}

abbrev pub refused : String → String → Progress → Progress
refused what route p = record p {
  route_errors = p.route_errors ++ (append what (append " route=" route) ∷ []);
}

module _ {W : Type 0} where
  -- an error that the code handles, as a value
  abbrev pub attempted : Result Error Unit × W → Result Error Bool × W
  attempted (ok _, w) = (ok true, w)
  attempted (err e, w) = (ok false, w)
  attempted (panic, w) = (panic, w)

  abbrev pub attempt : Act W Unit → Act W Bool
  attempt m w = attempted (m w)

module _ {W : Type 0} (n : Notifier W) (event : Event) where
  unfoldable pub send : String → Message → Act W Unit
  unfolding strip_leading_mention event_card
  send route m =
      if route == "channel"
      then n.discord.send_mention_card event.job.channel event.job.account (event_card event)
          (strip_leading_mention m.content event.job.account) m.nonce m.components
      else n.discord.send_dm_card event.job.account (event_card event) m.content m.nonce
          m.components

  abbrev pub mark : Option (ProgressStore W) → NotificationFragment → Act W Unit
  mark none f = pure tt
  mark (some st) f = st.mark_delivered event.job.id event.delivery_key f

  abbrev pub clock : Act W ℕ
  clock w = (ok (n.now w), w)

  abbrev pub unsent : String → Message → (Progress → Act W Progress) → Progress → Act W Progress
  unsent route m rest p = do
    sent ← attempt (send route m)
    if not sent then pure (refused "notification delivery failed" route p) else do
      time ← clock
      marked ← attempt (mark n.progress (fragment_of route m time))
      if not marked
          then pure (refused "notification progress mark failed" route p)
          else rest (record p {
            delivered =
                update p.delivered (fragment_key route (pos m.fragment_index))
                  (some (fragment_of route m time));
          })

  -- one message, of which the map has this, and what follows it; `break` leaves that out
  unfoldable pub offered :
      String
      → Message
      → (Progress → Act W Progress)
      → Progress
      → Option NotificationFragment
      → Act W Progress
  unfolding send
  offered route m rest p (some previous) w =
      if agrees previous m
      then rest p w
      else (ok (refused "notification delivery conflict" route p), w)
  offered route m rest p none w = unsent route m rest p w

  -- the loop over the messages of a route
  unfoldable pub deliver : String → List Message → Progress → Act W Progress
  unfolding offered
  deliver route [] p w = (ok p, w)
  deliver route (m ∷ ms) p w =
      offered route m (λ p'. deliver route ms p') p
        (p.delivered (fragment_key route (pos m.fragment_index))) w

  abbrev pub routes : List String
  routes = "dm" ∷ (if not (event.job.channel == "") then "channel" ∷ [] else [])

  -- a panic of `notificationMessages`
  abbrev pub deliver_route : Option (List Message) → String → Progress → Act W Progress
  deliver_route none route p w = (panic, w)
  deliver_route (some ms) route p w = deliver route ms p w

  unfoldable pub deliver_all : List String → Progress → Act W Progress
  unfolding deliver notification_messages
  deliver_all [] p = pure p
  deliver_all (route ∷ rest) p =
      deliver_route (notification_messages n.digest n.encode event route) route p
      >>= deliver_all rest

  -- errors.Join
  abbrev pub joined_errors : List String → Act W Unit
  joined_errors [] = pure tt
  joined_errors (e ∷ es) = fail (external (join "\n" (e ∷ es)))

  abbrev pub fetched : Result Error (List NotificationFragment) × W → Result Error Fragments × W
  fetched (ok fs, w) = (ok (recorded (λ _. none) fs), w)
  fetched (err e, w) = (err (external "notification progress unavailable"), w)
  fetched (panic, w) = (panic, w)

  abbrev pub delivered_before : Option (ProgressStore W) → Act W Fragments
  delivered_before none w = (ok (λ _. none), w)
  delivered_before (some st) w = fetched (st.delivered_fragments event.job.id event.delivery_key w)

  abbrev pub has_progress : Option (ProgressStore W) → Bool
  has_progress none = false
  has_progress (some _) = true

  -- the loop over the routes, and the errors that it leaves
  unfoldable pub send_missing : Fragments → Act W Unit
  unfolding deliver_all
  send_missing before = do
    after ← deliver_all routes (record { delivered = before; route_errors = [] })
    joined_errors after.route_errors

  abbrev pub notify_vacancy : Option (ProgressStore W) → Act W Unit
  notify_vacancy progress =
      if has_progress progress && event.delivery_key == ""
      then fail (external "notification delivery key is required")
      else (delivered_before progress >>= send_missing)

  unfoldable pub notify : Act W Unit
  unfolding send_missing notification_text event_card
  notify =
      if event.kind == "vacancy"
      then notify_vacancy n.progress
      else n.discord.send_dm_card event.job.account (event_card event) (notification_text event) ""
          []
