-- ===== src/Model.antt =====
-- internal/model: the data that the components share.
pub mod Storage
pub mod User
pub mod Meta
pub mod Objects
pub mod Setting
