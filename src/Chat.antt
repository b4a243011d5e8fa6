-- ===== src/Chat.antt =====
-- The chat widget: app/assets/js/oocsi-chat.js.
pub mod Text
pub mod Widget
pub mod Actions
pub mod System
pub mod Laws
mod Tests
mod ConversationTests
