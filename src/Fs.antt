-- ===== src/Fs.antt =====
-- src/bindfs.c: the FUSE callbacks, their settings and the system calls below them.
pub mod Settings
pub mod Os
pub mod Ids
pub mod Common
pub mod Mirrored
pub mod Keeps
pub mod Inversion
pub mod Attr
pub mod Create
pub mod Delete
pub mod Ops
pub mod Requests
