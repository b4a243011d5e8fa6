-- ===== src/Things/Laws.antt =====
-- What holds of the things page.
pub mod Slug
pub mod Presence
pub mod Granted
pub mod Links
pub mod Announced
pub mod Cookie
pub mod Saved
