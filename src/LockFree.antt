-- ===== src/LockFree.antt =====
-- The lock-free list of src/collections.c: its operations, and below what they keep.
mod Alloc
mod Change
mod Create
mod Dump
mod Defs
mod Ops
mod Calls
mod Refine
mod Search
mod Span
mod Inv
mod Delete
mod Deleted
mod Inserted
mod Insert
mod Link
mod Lookup
mod Spec
mod Unlink
mod Update
mod Values
unfoldable pub use Defs.*
unfoldable pub use Ops.*
unfoldable pub use Calls.*
pub use Refine.*
pub use Search.*
pub use Insert.*
pub use Delete.*
pub use Create.*
pub use Dump.*
pub use Inv.*
pub use Lookup.*
pub use Span.*
pub use Update.*
unfoldable pub use Spec.*
pub use Values.*
