-- ===== src/Lib.antt =====
-- The browser side of OOCSI: the message client, the live picture of clients and channels, the
-- chat widget and the things page, as app/assets/js has them.
--
-- The client (oocsi-web.js) keeps one socket to the server and the page's handlers, responders,
-- pending calls and variables. Files under Client model it:
--   * Client/State.antt: the variables of the module as one record `State`; what the code calls on
--     the browser and the page as a list of `Effect`; a statement is an `Action`, which returns the
--     state, the effects in order and whether it threw. `>>` is the sequence, `try_catch` the try
--     block, `when`, `branch` and `option_case` the tests.
--   * Client/Guid.antt: guid and the digits of a name.
--   * Client/Messaging.antt: submit, waitForSocket and the internal functions, calls, responders and
--     variables. A call that waits for the socket is a `Deferred` in `waiting`.
--   * Client/Connection.antt: init, the listeners of the socket, the reconnect with its backoff, and
--     connect.
--   * Client/Receive.antt: onMessage.
--   * Client/Api.antt: the object that the module returns. `Event` lists all that can run its code (a
--     call of the page, a timeout, an event of the socket, the clock); `run_event` runs it, and `Reach`
--     is the states that sequences of events reach.
--   * Client/Presence.antt: heyOOCSI, the functions of the object that it returns, and what they gather.
-- Client/Sound.antt holds rules for statements, by which a property is carried through all of them;
-- Client/Laws holds what is proved of the client, and Client/Tests.antt runs it.
--
-- The picture (oocsi-graphvis.js): GraphVis/Path.antt models findPath, GraphVis/Graph.antt the
-- nodes and links and how addClient and addChannel add to them, GraphVis/Message.antt sendMessage,
-- the filters and the dots, GraphVis/Animation.antt the timeouts that move a dot,
-- GraphVis/Drawing.antt the classes and opacities that update computes, GraphVis/Circles.antt the
-- lines, circles and labels that it draws, GraphVis/Dragging.antt the listeners of a drag, GraphVis/Widgets.antt the
-- sparklines and what each second gives to them, GraphVis/Feed.antt the event source and the
-- events of the page that open and close it, and GraphVis/Report.antt what is read of a message.
-- GraphVis/Screen.antt puts them together: `Screen` is the state of the page, and `Run` are its
-- runs.
--
-- The widget (oocsi-chat.js): Chat/Text.antt models the cookies, the escaping and the rendering of
-- data, Chat/Widget.antt the variables of the widget and what it does with a channel and a message,
-- Chat/Actions.antt the clicks and the start, and Chat/System.antt the events of the client that its
-- calls are. `run_action` runs an event.
--
-- The things page (things/oocsi-things.js): Things/Team.antt models the slug and the channel of a team,
-- Things/Setup.antt the dialog and the configuration, Things/Download.antt the saved source,
-- Things/Registry.antt oocsiThings, whose calls on the client are events of Client/Api.antt,
-- Things/Header.antt the header that it writes, Things/System.antt the functions that the client
-- calls, and Things/Motion.antt requestDeviceMotion.
--
-- Json.antt and Json/Access.antt model JavaScript values and their conversions.
--
-- Choices. A function value of the page is a number, and what it does is a parameter (`Platform`):
-- whether it throws, and the response that it fills in. What it calls on the client itself counts as
-- a later event. Time and random draws are inputs of an event (`Input`). Numbers inside of messages
-- are kept as their texts, texts are sequences of code points, and JSON.parse and JSON.stringify are
-- parameters. The socket's ready state is kept with the socket, and only events of the browser change
-- it. Object keys are kept in the order of insertion.
--
-- The server is not in this code: where a theorem speaks of two pages, a function from the name of the
-- sender and the text that was sent to the text that arrives stands for it, and `Carries` in
-- Client/Laws/Carried.antt says what is expected of one text: it is no ping, and is read as an object
-- with the sender, the recipient and the data that was sent.
--
-- The functions that a page gives as logger and error are taken to throw nothing, as the default ones,
-- which do nothing. Timeouts of waitForSocket fire in the order in which they were set. Once a
-- subscriber's name makes no node, the picture has a link without a target, of which the force of d3
-- throws at every later update: `Run` goes up to there, and `Breaks` is that end.
--
-- Fuel. findPath takes 2 * links + 2 rounds: each round takes one node off the queue, no node is
-- queued twice, and only ends of links and the source are queued. The walk back along the parents
-- takes one step more than there are parents. getCookie takes one round more than the text has
-- characters, and each round takes a piece off; `find_cookie` tells running out of rounds from
-- finding nothing. The retries of waitForSocket are events, so they need no fuel.
--
-- Not modelled: the picture after a link without a target was pushed; drawing (d3 forces and
-- positions, lines of the sparklines, elements and styles), which only calls third-party code;
-- public/js, which holds copies of other projects; and the Play server under app/, which is Java
-- on a library that is not in the repository.
pub mod Common
pub mod Json
pub mod Client
pub mod GraphVis
pub mod Chat
pub mod Things
