-- ===== src/GraphVis.antt =====
-- The live picture of clients and channels: app/assets/js/oocsi-graphvis.js.
pub mod Path
pub mod Graph
pub mod Message
pub mod Feed
pub mod Animation
pub mod Widgets
pub mod Report
pub mod Screen
pub mod Drawing
pub mod Circles
pub mod Dragging
pub mod Laws
mod Tests
mod ScreenTests
