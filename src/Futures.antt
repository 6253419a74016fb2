-- ===== src/Futures.antt =====
-- Futures: include/daw/fs/future_result.h and include/daw/fs/impl/future_result_impl.h.
pub mod Expected
pub mod Reduction
pub mod Member
pub mod Invariant
pub mod Delivery
pub mod Delivered
pub mod SetValue
pub mod Growth
pub mod Steps
pub mod Runs
pub mod Forks
pub mod Reachable
pub mod Lost
pub mod Callers
pub mod Chaining
pub mod Handle
pub mod Join
pub mod Adding
pub mod VoidMember
pub mod VoidErrors
pub mod Group
mod Examples
