-- ===== src/FileOps.antt =====
-- src/file_ops.c and include/file_ops.h: paths of requests are resolved below the root
-- directory, and the operations on files go through that resolution. `get_config()` is the
-- parameter `cfg`; log output is left out.
pub mod Resolve
pub mod Operations
pub mod Confined
pub mod Listing
