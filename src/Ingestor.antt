-- ===== src/Ingestor.antt =====
-- sdk/src/sui/events: the ingestor that turns the event stream of a node into pages of decoded events.
pub mod Types
pub mod Frames
pub mod Driver
pub mod Pages
pub mod Keeps
pub mod Reconnect
pub mod Progress
pub mod Delivery
pub mod Tests
