-- ===== src/Go/Path.antt =====
-- The package path (stdpath in the sources), over lists of bytes.
mod Defs
mod Segments
mod Elements
unfoldable pub use Defs.*
unfoldable pub use Segments.*
unfoldable pub use Elements.*
