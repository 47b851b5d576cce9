-- ===== src/Op.antt =====
-- internal/op: operations on storages, objects, metas, users and settings.
pub mod Storages
pub mod Cache
pub mod Metas
pub mod Users
pub mod Virtual
pub mod Files
pub mod Settings
