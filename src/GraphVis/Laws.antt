-- ===== src/GraphVis/Laws.antt =====
-- What holds of the picture.
pub mod Frames
pub mod Dragging
pub mod Seen
pub mod Loop
pub mod Growth
pub mod Dots
pub mod Pictures
pub mod Connected
pub mod Names
pub mod Opacity
pub mod Circles
pub mod Untouched
pub mod Sparkline
pub mod Counting
pub mod Tied
pub mod Paths
pub mod Delivery
pub mod Moving
pub mod Subscribers
pub mod Telling
pub mod Screens
pub mod Told
