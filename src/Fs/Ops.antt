-- ===== src/Fs/Ops.antt =====
-- The FUSE callbacks of src/bindfs.c, in groups. Each is an action that ends with the value that the
-- callback hands out, or with the `errno` that it returns negated.
pub mod Nodes
pub mod Owners
pub mod Files
pub mod Dirs
pub mod Xattrs
