-- ===== src/Commands/Views/Table.antt =====
-- The handlers of the dispatcher.

use uade_bot.Commands.Desk.{Config}
use uade_bot.Commands.Dispatch.{Handlers}
use uade_bot.Commands.Microsoft.{microsoft}
use uade_bot.Commands.Views.{Surroundings, estado}
use uade_bot.Commands.Views.Choices.{autocomplete}
use uade_bot.Commands.Views.Counts.{admin_stats, admin_user_stats}
use uade_bot.Commands.Views.Button.{component}

module _ (c : Config) (w : Surroundings) where
  -- the handlers of the dispatcher
  abbrev pub handlers : Handlers
  handlers = record {
    autocomplete = autocomplete c w;
    component = component c w;
    microsoft = microsoft w.hour w.sessions;
    estado = estado c w;
    admin_stats = admin_stats c w;
    admin_user_stats = admin_user_stats c w;
  }
