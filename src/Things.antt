-- ===== src/Things.antt =====
-- The things page: app/assets/js/things/oocsi-things.js.
pub mod Team
pub mod Download
pub mod Setup
pub mod Registry
pub mod Header
pub mod Motion
pub mod System
pub mod Laws
mod Tests
mod AnnouncedTests
