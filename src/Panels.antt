-- ===== src/Panels.antt =====
-- apps/web/src/components/room: the panels beside the player.
pub mod Chat
pub mod Participants
pub mod Queue
