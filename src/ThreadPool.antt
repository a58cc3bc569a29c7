-- ===== src/ThreadPool.antt =====
-- src/thread_pool.c: jobs, and the queues that they wait in.
mod JobFields
mod Pool
mod Seeking
mod Weights
mod Steps
mod Kept
mod Runs
pub mod Queues
pub mod Cancel
pub mod Create
unfoldable pub use JobFields.*
unfoldable pub use Pool.*
unfoldable pub use Seeking.*
unfoldable pub use Weights.*
unfoldable pub use Steps.*
unfoldable pub use Kept.*
pub use Runs.*
