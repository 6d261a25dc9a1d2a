-- ===== src/DashMap.antt =====
-- The concurrent hash maps of the program (dashmap::DashMap), as association lists in the order in
-- which an iteration meets the entries. Each call of the source on a map is atomic, and so is each
-- function here. The source depends on no particular order of iteration.
mod Laws
mod Select
pub use Laws.*
pub use Select.*
mod Defs
unfoldable pub use Defs.*
