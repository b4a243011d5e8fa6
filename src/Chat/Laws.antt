-- ===== src/Chat/Laws.antt =====
-- What holds of the chat widget.
pub mod Escape
pub mod Render
pub mod Badge
pub mod Rounds
pub mod Cookies
pub mod Unread
pub mod Spoken
pub mod Conversation
