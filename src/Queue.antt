-- ===== src/Queue.antt =====
-- The queue: its operations, and below what they keep and the queue that they implement.
mod Defs
mod Create
mod Dequeue
mod Enqueue
mod Inv
mod Refine
mod Value
unfoldable pub use Defs.*
pub use Create.*
pub use Dequeue.*
pub use Enqueue.*
pub use Inv.*
unfoldable pub use Refine.*
pub use Value.*
