-- ===== src/Worker.antt =====
-- The consumers of the queues and what they do with a message.
pub mod Types
pub mod Network
pub mod Viewer
pub mod Base
pub mod Events
pub mod Main
