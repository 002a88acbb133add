-- ===== src/App/Examples.antt =====
-- A delivery over a list of the messages sent, and its theorems at concrete inputs.
mod Relinks
use uade_bot.Scheduler.Types.{Error}
use uade_bot.App.Messages.{escape_discord_text}
use uade_bot.App.Messages.{notification_identity}
use uade_bot.App.Messages.{notification_text}
use uade_bot.App.Messages.{notification_messages}
use uade_bot.Prelude.Trim.{trim_space}
use uade_bot.Prelude.{join}
use uade_bot.Prelude.Bytes.{bytes}
use uade_bot.Prelude.Decimal.{digits_before}
use uade_bot.App.Notifier.{deliver, offered, send, strip_leading_mention, fragment_key, send}
use uade_bot.App.Notifier.{offered}
use uade_bot.App.Notifier.{deliver}
use Prim.Native.String.{◌++◌ as append}
use uade_bot.Prelude.{
  ℕ, zero, suc, ◌+◌, ◌≡◌, refl, String, true, none, some, List, [], ◌∷◌, ◌++◌, length, ltb→lt, ◌*◌,
  ◌⊎◌,
}
use uade_bot.Prelude.Decimal.{decimal, itoa}
use uade_bot.Prelude.Decimal.Widths.{width}
use uade_bot.Prelude.Runes.{rune_count}
use uade_bot.Prelude.Exec.{Result, ok}
use uade_bot.Scheduler.Types.{Event, NotificationFragment}
use uade_bot.Scheduler.Ports.{Act}
use uade_bot.App.Split.{contents, split, limit}
use uade_bot.App.Split.Fragments.{Fits}
use uade_bot.App.Split.Rounds.{Numbered, split-Numbered}
use uade_bot.App.Messages.{
  escape_discord_text, notification_identity, notification_text, notification_messages, event_card,
  fragment_nonce,
}
use uade_bot.App.Notifier.{Notifier, ProgressStore, Progress, recorded, deliver_all, routes, notify}
use uade_bot.App.Messages.Escapes.{plain, literal, literal-escape}
use uade_bot.App.Notifier.Once.{ReadsBack, notify_once}

abbrev repeat : ℕ → String
repeat zero = ""
repeat (suc n) = String.◌∷◌ "a" (repeat n)

abbrev long_text : String
long_text = repeat 2100

split-Numbered_example :
    (messages : List String) × (split long_text "<@7>\n" ≡ contents messages)
    × Fits messages
    × ((messages ≡ append "<@7>\n" long_text ∷ []) ⊎ Numbered long_text "<@7>\n" messages)
split-Numbered_example =
    split-Numbered long_text "<@7>\n"
      (ltb→lt (rune_count "<@7>\n" + 10 + 2 * width (rune_count long_text)) limit refl)

-- what was sent, the latest first, and what is stored
record Outbox : Type 0 where
  sent : List String
  stored : List NotificationFragment

abbrev post : String → Act Outbox Unit
post content w = (ok tt, record w { sent = content ∷ w.sent })

abbrev outbox_store : ProgressStore Outbox
outbox_store = record {
  delivered_fragments = λ job key w. (ok w.stored, w);
  mark_delivered = λ job key f w. (ok tt, record w { stored = w.stored ++ (f ∷ []) });
}

abbrev outbox_notifier : Notifier Outbox
outbox_notifier = record {
  discord = record {
    send_dm_card = λ user card content nonce components. post content;
    send_mention_card = λ channel owner card content nonce components. post content;
  };
  progress = some outbox_store;
  digest = λ bs. decimal (length bs);
  encode = λ c. [];
  now = λ w. 5;
}

abbrev vacancy_event : Event
vacancy_event = record {
  kind = "vacancy";
  job = record {
    account = "7";
    id = "3";
    channel = "12";
    materia_codigo = "2.1";
    label = "";
    runnable = true;
  };
  outcome = record {
    code = "success";
    vacancies = [];
    materia_codigo = "2.1";
    materia_nombre = "";
  };
  reason = "";
  delivery_key = "k";
}

abbrev start : Progress
start = record { delivered = λ _. none; route_errors = [] }

abbrev empty_outbox : Outbox
empty_outbox = record { sent = []; stored = [] }

abbrev dm_text : String
dm_text = "Se encontro una vacante para **2.1**."

abbrev channel_text : String
channel_text = "Se encontro una vacante para **2.1**."

-- the state after the delivery on both routes
abbrev after_first : Result Error Progress × Outbox
after_first =
    deliver_all outbox_notifier vacancy_event (routes outbox_notifier vacancy_event) start
      empty_outbox

first_delivery : after_first.1.sent ≡ channel_text ∷ dm_text ∷ []
unfolding deliver_all deliver offered send notification_messages notification_text
    notification_identity escape_discord_text trim_space split fragment_nonce fragment_key
    strip_leading_mention event_card join itoa decimal digits_before bytes
first_delivery = refl

abbrev progress_of : Result Error Progress → Progress
progress_of (ok p) = p
progress_of _ = start

abbrev delivered_once : Progress
delivered_once = progress_of after_first.0

first_ok : after_first ≡ (ok delivered_once, after_first.1)
unfolding deliver_all deliver offered send notification_messages notification_text
    notification_identity escape_discord_text trim_space split fragment_nonce fragment_key
    strip_leading_mention event_card join itoa decimal digits_before bytes
first_ok = refl

first_clean : delivered_once.route_errors ≡ []
unfolding deliver_all deliver offered send notification_messages notification_text
    notification_identity escape_discord_text trim_space split fragment_nonce fragment_key
    strip_leading_mention event_card join itoa decimal digits_before bytes
first_clean = refl

read_back :
    ReadsBack outbox_notifier vacancy_event delivered_once.delivered
      (recorded (λ _. none) after_first.1.stored)
unfolding deliver_all deliver offered send notification_messages notification_text
    notification_identity escape_discord_text trim_space split fragment_nonce fragment_key
    strip_leading_mention event_card join itoa decimal digits_before bytes
read_back k f e = (f, e, refl, refl)

notify_once_example : notify outbox_notifier vacancy_event after_first.1 ≡ (ok tt, after_first.1)
notify_once_example =
    notify_once outbox_notifier vacancy_event outbox_store start delivered_once empty_outbox
      after_first.1 after_first.1 after_first.1 after_first.1.stored refl refl refl refl first_ok
      first_clean refl read_back

literal-escape_example : literal plain (escape_discord_text "a_b @c") ≡ some "a_b @c"
literal-escape_example = literal-escape "a_b @c"
