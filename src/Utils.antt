-- ===== src/Utils.antt =====
-- pkg/utils: paths, mount paths and slices.
pub mod Path
pub mod Balance
pub mod Slice
pub mod FileType
