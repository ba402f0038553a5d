-- ===== src/Player.antt =====
-- apps/web/src/components/room/player.tsx: the room's player, over the engines of Engine.
pub mod View
pub mod Controls
pub mod Overlay
pub mod Offers
pub mod Permission
pub mod Sound
pub mod Taps
pub mod Menus
pub mod Jumps
pub mod Announced
