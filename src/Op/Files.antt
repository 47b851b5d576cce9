-- ===== src/Op/Files.antt =====
-- internal/op/fs.go: the operations on the files of one storage, with the cache of its listings.
pub mod Monad
pub mod Env
pub mod Listing
pub mod Shared
pub mod Read
pub mod Write
pub mod Upload
