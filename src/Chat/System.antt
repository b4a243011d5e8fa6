-- ===== src/Chat/System.antt =====
-- app/assets/js/oocsi-chat.js on app/assets/js/oocsi-web.js: the events of the client that the widget's calls
-- are. The widget gives the client two functions: one for its connection, and one for its channel.
use oocsi_web.Common.{ℕ, List, some, [], ◌∷◌, ◌++◌}
use oocsi_web.Chat.Widget.{
  Call, connect, send, subscribe, unsubscribe, set_document_cookie, log_line, report,
}
use oocsi_web.Client.Api.{Event, connect_to}
use oocsi_web.Client.Api as Api

-- A cookie and a line of the log are no calls of the client.
unfoldable pub client_event : (connection handler : ℕ) → Call → List Event
client_event connection handler (connect url name) =
    connect_to url (some name) (some connection) ∷ []
client_event connection handler (send channel m) = Api.send channel m ∷ []
client_event connection handler (subscribe channel) = Api.subscribe channel (some handler) ∷ []
client_event connection handler (unsubscribe channel) = Api.unsubscribe channel ∷ []
client_event connection handler (set_document_cookie text) = []
client_event connection handler (log_line text) = []
client_event connection handler (report text) = []

unfoldable pub client_events : (connection handler : ℕ) → List Call → List Event
unfolding client_event
client_events connection handler [] = []
client_events connection handler (c ∷ calls) =
    client_event connection handler c ++ client_events connection handler calls
