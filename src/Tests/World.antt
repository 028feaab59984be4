-- ===== src/Tests/World.antt =====
-- A file system small enough to run the callbacks of src/bindfs.c on: a file, a directory with its
-- setgid bit, a block device, a link and a broken link. Its state counts the calls that change it.
use bindfs.Base.{ℕ, suc, [], ◌∷◌, ◌++◌, ◌==◌, none, false, if◌then◌else◌}
use bindfs.Base.Int.{pos}
use bindfs.Base.Errors.{ok, err, enoent}
use bindfs.Base.Text.{Bytes, codes}
use bindfs.Usermap.{usermap_create}
use bindfs.Usermap.Arrays.{no_id}
use bindfs.Fs.Settings.{Settings, Context, Stat, create_as_user, chown_normal, chgrp_normal}
use bindfs.Fs.Settings.{chmod_normal, xattr_read_write, deletion_deny}
use bindfs.Fs.Os.{M, Os, Peers}

abbrev pub stat_of : ℕ → Stat
stat_of mode = record {
  st_mode = mode;
  st_uid = 1000;
  st_gid = 100;
  st_nlink = 2;
  st_size = 5;
  st_mtim = 7;
  st_ctim = 9;
  st_rest = 0;
}

-- A file is told by the first letter of its name.
abbrev pub look : Bytes → Stat
look [] = stat_of 0o100640
look (c ∷ cs) =
    if c == b'd'
    then stat_of 0o042775
    else if c == b's'
    then stat_of 0o060660
    else if c == b'l'
    then stat_of 0o120777
    else if c == b'b'
    then stat_of 0o120777
    else stat_of 0o100640

abbrev pub resolve : Bytes → M ℕ Bytes
resolve [] s = (err enoent, s)
resolve (c ∷ cs) s = if c == b'b' then (err enoent, s) else (ok (codes "/data/" ++ (c ∷ cs)), s)

abbrev pub tick : M ℕ (Unit {0})
tick s = (ok tt, suc s)

abbrev pub world : Os
world = record {
  State = ℕ;
  realpath = resolve;
  lstat = λ p s. (ok (look p), s);
  access = λ p a s. (ok tt, s);
  open_file = λ p f m s. (ok 3, s);
  close = λ fd s. (ok tt, s);
  blkgetsize64 = λ fd s. (4096, s);
  chown = λ p u g. tick;
  lchown = λ p u g. tick;
  chmod = λ p m. tick;
  unlink = λ p. tick;
  rmdir = λ p. tick;
  opendir = λ p s. (ok (record { entries = []; failure = none }), s);
  closedir = λ s. (ok tt, s);
  filler = λ p st s. (ok tt, s);
  readlink = λ p n s. (ok (codes "file"), s);
  mkfifo = λ p m. tick;
  mknod = λ p m d. tick;
  mkdir = λ p m. tick;
  symlink = λ f t. tick;
  rename = λ f t. tick;
  renameat2 = λ f t n. tick;
  link = λ f t. tick;
  truncate = λ p n. tick;
  utimensat = λ p a m. tick;
  mmap = λ n s. (ok 64, s);
  munmap = λ a n s. (ok tt, s);
  pread = λ fd b n o s. (ok (codes "hello"), s);
  pwrite = λ fd b d o s. (ok 5, suc s);
  lock = λ fd c l s. (ok tt, s);
  flock = λ fd o s. (ok tt, s);
  ioctl = λ fd c a s. (ok 0, s);
  statvfs = λ p s. (ok 0, s);
  fsync = λ fd s. (ok tt, s);
  fdatasync = λ fd s. (ok tt, s);
  lsetxattr = λ p n v f. tick;
  lgetxattr = λ p n l s. (ok [], s);
  llistxattr = λ p l s. (ok [], s);
  lremovexattr = λ p n. tick;
}

abbrev pub peers : Peers ℕ
peers = record {
  wait_for_read = λ n s. (ok tt, s);
  wait_for_write = λ n s. (ok tt, s);
  user_belongs_to_group = λ u g s. (ok false, s);
}

abbrev pub plain : Settings
plain = record {
  permchain = [];
  new_uid = no_id;
  new_gid = no_id;
  create_for_uid = no_id;
  create_for_gid = no_id;
  mntdest = codes "/mnt";
  usermap = usermap_create;
  usermap_reverse = usermap_create;
  read_limiter = false;
  write_limiter = false;
  create_policy = create_as_user;
  create_permchain = [];
  chown_policy = chown_normal;
  chgrp_policy = chgrp_normal;
  chmod_policy = chmod_normal;
  chmod_allow_x = false;
  chmod_permchain = [];
  xattr_policy = xattr_read_write;
  delete_deny = false;
  rename_deny = false;
  mirrored_users_only = false;
  mirrored_users = [];
  mirrored_members = [];
  hide_hard_links = false;
  resolve_symlinks = false;
  block_devices_as_files = false;
  resolved_symlink_deletion_policy = deletion_deny;
  realistic_permissions = false;
  ctime_from_mtime = false;
  forward_odirect = false;
  odirect_alignment = 512;
  uid_offset = pos 0;
  gid_offset = pos 0;
}

abbrev pub caller : Context
caller = record { uid = 1001; gid = 100 }
