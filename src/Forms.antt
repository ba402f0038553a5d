-- ===== src/Forms.antt =====
-- The forms of apps/web/src that ask the server for something over HTTP.
--
-- A form is the record of its useState values and of the requests it has made; what a field holds,
-- a press and what the server answers are events. A field's value is what the browser lets it hold.
pub mod NewRoom
pub mod Update
pub mod Settings
pub mod Rename
pub mod Directory
