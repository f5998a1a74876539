-- ===== src/Schedule/Search.antt =====
-- The array methods of packages/room-state/src/state.ts, with their laws.
mod Defs
mod Laws
unfoldable pub use Defs.*
pub use Laws.*
