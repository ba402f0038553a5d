-- ===== src/Tests.antt =====
-- The theorems at concrete inputs, and the cases of packages/protocol/tests/timeline.test.ts.
mod Fixtures
mod Playback
mod Clocks
mod Rooms
mod Sockets
mod Players
mod Media
mod Twitch
mod Room
mod Panels
mod Shells
mod Keys
mod Calls
mod Forms
