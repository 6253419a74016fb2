-- ===== src/Streams.antt =====
-- include/daw/fs/function_stream.h, include/daw/fs/impl/function_stream_impl.h and
-- include/daw/fs/package.h. The functions of a stream are taken at one type, so that a tuple of them
-- is a list.
pub mod Composer
pub mod Stream
pub mod Generator
mod Examples
