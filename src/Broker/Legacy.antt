-- ===== src/Broker/Legacy.antt =====
-- broker/broker.go, `LegacyBroker`: broadcasts without history, cache or presence. The tracker and
-- what the broadcaster is told of streams are those of Broker/Tracker.
use anycable.Prelude.{Bool, false, Option, none, List, [], ◌∷◌, ◌++◌, String, ℕ}
use anycable.Common.{StreamMessage}
use anycable.Broker.Outcome.{Outcome, err, history_not_supported, presence_not_supported}
use anycable.Broker.Tracker
use anycable.Broker.Tracker.{Tracked}
use anycable.Broker.Presence.{PresenceEvent, PresenceInfo}

pub record LegacyBroker : Type 0 where
  pub tracked : Tracked
  pub broadcasts : List StreamMessage

abbrev pub new_legacy_broker : LegacyBroker
new_legacy_broker = record { tracked = record { tracker = []; told = [] }; broadcasts = [] }

unfoldable pub handle_broadcast : LegacyBroker → StreamMessage → LegacyBroker
handle_broadcast b msg = record b { broadcasts = b.broadcasts ++ msg ∷ [] }

unfoldable pub subscribe : LegacyBroker → String → LegacyBroker
subscribe b stream = record b { tracked = Tracker.subscribe b.tracked stream }

unfoldable pub unsubscribe : LegacyBroker → String → LegacyBroker
unsubscribe b stream = record b { tracked = Tracker.unsubscribe b.tracked stream }

unfoldable pub history_from : String → String → ℕ → Outcome (List StreamMessage)
history_from stream epoch offset = err history_not_supported

unfoldable pub history_since : String → ℕ → Outcome (List StreamMessage)
history_since stream ts = err history_not_supported

unfoldable pub peak : String → Outcome (Option StreamMessage)
peak stream = err history_not_supported

unfoldable pub restore_session : String → Option String
restore_session from = none

abbrev pub supports_presence : Bool
supports_presence = false

unfoldable pub presence_add :
    {Info : Type 0} → String → String → String → Info → Outcome (Option (PresenceEvent Info))
presence_add stream sid pid info = err presence_not_supported

unfoldable pub presence_remove :
    {Info : Type 0} → String → String → Outcome (Option (PresenceEvent Info))
presence_remove stream sid = err presence_not_supported

unfoldable pub presence_info : {Info : Type 0} → String → Outcome (PresenceInfo Info)
presence_info stream = err presence_not_supported
