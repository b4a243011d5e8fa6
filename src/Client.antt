-- ===== src/Client.antt =====
-- The browser client of the message server: app/assets/js/oocsi-web.js.
pub mod State
pub mod Guid
pub mod Messaging
pub mod Connection
pub mod Receive
pub mod Api
pub mod Presence
pub mod Sound
pub mod Samples
pub mod Laws
mod Tests
mod RemoteTests
mod SharedTests
