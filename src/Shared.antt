-- ===== src/Shared.antt =====
-- A memory pool of src/collections.c that several threads use at once: internal_mempool_put and
-- internal_mempool_pick, one shared access at a time.
mod Machine
mod Inv
mod Lines
mod Changes
mod Kept
mod Linked
mod Runs
mod Zeroed
mod Solo
mod Ends
mod Carried
mod Alone
pub use Machine.*
pub use Inv.*
pub use Runs.*
pub use Zeroed.*
unfoldable pub use Solo.*
pub use Alone.*
