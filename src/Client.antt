-- ===== src/Client.antt =====
-- The client: its menu, its connection, and the dialogue over both.
pub mod Menu
pub mod Controller
pub mod Requests
pub mod GroupWindows
pub mod App
pub mod Printing
