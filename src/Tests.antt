-- ===== src/Tests.antt =====
-- Tests, and the theorems at concrete inputs.
mod Paths
mod Mounts
mod Metas
mod Pages
mod Access
mod Workers
mod Objects
mod Queues
mod Signs
mod Virtual
mod Files
mod Lifecycle
mod UrlTree
mod Users
mod Fs
mod Logins
mod Downloads
mod Settings
mod Copies
mod Reads
mod Sorted
