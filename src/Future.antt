-- ===== src/Future.antt =====
-- src/future.c: a promise is set by one thread and awaited by others, under the mutex of the
-- future in it. A wait on the condition variable is a step that may return at any time, and the
-- loop tests `done` again.
mod Defs
mod Steps
unfoldable pub use Defs.*
pub use Steps.*
