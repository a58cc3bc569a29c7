-- ===== src/Mempool.antt =====
-- The memory pool: its operations, and below what they keep and what they return.
mod Api
mod Contains
mod Create
mod Defs
mod Fragments
mod Inv
unfoldable pub use Defs.*
pub use Api.*
pub use Contains.{contains_iff, contains-fragment, Destroyed, destroy-Destroyed}
pub use Create.{
  Fresh, block_of, first_fragment, InSpace, Created, create-Created, Cleared, clear-Cleared,
}
pub use Fragments.*
pub use Inv.*
