-- ===== src/Msq.antt =====
-- The queue of Michael and Scott, as src/collections.c uses it twice: the two loops, and below the
-- chain that they work on, what a round may come to, and what the loops end with.
mod Defs
mod Help
mod Line
mod Link
mod Unlink
unfoldable pub use Defs.*
pub use Help.*
pub use Line.*
pub use Link.*
pub use Unlink.*
