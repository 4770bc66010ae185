-- ===== src/Tests.antt =====
-- The theorems on the server applied to a small run of it.
mod Example
mod Run
mod Server
mod Users
mod Groups
mod Tcp
mod Client
mod Windows
