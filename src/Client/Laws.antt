-- ===== src/Client/Laws.antt =====
-- What holds of the client of app/assets/js/oocsi-web.js.
pub mod Socket
pub mod Timers
pub mod Handlers
pub mod Calls
pub mod Carried
pub mod Announced
pub mod Remote
pub mod Recovery
pub mod Waiting
pub mod Variables
pub mod Shared
pub mod Guids
pub mod Errors
