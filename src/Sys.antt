-- ===== src/Sys.antt =====
-- A C program of the repository as a value: what it calls, in which order, and what it does with
-- each answer. The kernel and the C library are not under the repository, so a call is a node and
-- its answer is an argument of the rest.
mod Calls
mod Programs
pub mod Run
pub mod Serve
pub mod Monitor
pub mod Buffer
pub mod Tree
pub use Calls.*
pub use Programs.*
