-- ===== src/Algorithms.antt =====
-- The algorithms of include/daw/fs/impl/algorithms_impl.h, and the front ends of
-- include/daw/fs/algorithms.h that choose their arguments.
pub mod Reduce
pub mod Count
pub mod Find
pub mod Chunked
pub mod Writes
pub mod Map
pub mod MapPairs
pub mod InPlace
pub mod Scan
pub mod Equal
pub mod MinMax
pub mod ForEach
pub mod ForEachIndex
pub mod Sort
pub mod FrontEnds
mod Examples
