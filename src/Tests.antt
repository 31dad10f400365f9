-- ===== src/Tests.antt =====
-- The theorems at concrete inputs, and tests of the definitions.
mod Pipe
mod Wire
mod Requests
mod Threads
mod Sessions
mod Images
mod Settings
mod Game
mod Registry
mod Hooks
mod Admin
mod Replies
