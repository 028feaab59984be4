-- ===== src/Tests/Sequences.antt =====
-- Sequences of requests, on a file system whose state counts what is removed and renamed.
use bindfs.Base.{ℕ, ◌≡◌, refl, List, [], ◌∷◌, some, true}
use bindfs.Base.Errors.{ok}
use bindfs.Base.Text.{Bytes, codes}
use bindfs.Fs.Settings.{Settings, Context}
use bindfs.Fs.Os.{M, Os}
use bindfs.Fs.Requests.{Request, unlink, rename, mkdir, serve_all}
use bindfs.Fs.Requests.Spared.{SparesFiles, Spares}
use bindfs.Fs.Requests.Deletion.{nothing_removed}
use bindfs.Base.{suc, ◌-◌, none, false}
use bindfs.Fs.Keeps.{Keeps}
use bindfs.Fs.Ops.Dirs.{bindfs_readdir}
use bindfs.Fs.Requests.Directories.{readdir-closes}
use bindfs.Base.{arith}
use bindfs.Tests.World.{resolve}
use bindfs.Tests.World.{world, peers, plain, caller}
use bindfs.Tests.Calls.{resolve-Keeps}

abbrev idle : M ℕ (Unit {0})
idle s = (ok tt, s)

abbrev removals : Os
removals = record world {
  chown = λ p u g. idle;
  lchown = λ p u g. idle;
  chmod = λ p m. idle;
  mkfifo = λ p m. idle;
  mknod = λ p m d. idle;
  mkdir = λ p m. idle;
  symlink = λ f t. idle;
  link = λ f t. idle;
  truncate = λ p n. idle;
  utimensat = λ p a m. idle;
  pwrite = λ fd b d o s. (ok 5, s);
  lsetxattr = λ p n v f. idle;
  lremovexattr = λ p n. idle;
}

abbrev locked : Settings
locked = record plain { delete_deny = true; rename_deny = true }

none_removed : SparesFiles removals peers (λ n. n ≡ 0)
none_removed = record {
  realpath = resolve-Keeps;
  lstat = λ p. record { keeps = λ s i. i };
  access = λ p a. record { keeps = λ s i. i };
  open_file = λ p f m. record { keeps = λ s i. i };
  close = λ fd. record { keeps = λ s i. i };
  blkgetsize64 = λ fd s i. i;
  chown = λ p u g. record { keeps = λ s i. i };
  lchown = λ p u g. record { keeps = λ s i. i };
  chmod = λ p m. record { keeps = λ s i. i };
  filler = λ n st. record { keeps = λ s i. i };
  readlink = λ p n. record { keeps = λ s i. i };
  mkfifo = λ p m. record { keeps = λ s i. i };
  mknod = λ p m d. record { keeps = λ s i. i };
  mkdir = λ p m. record { keeps = λ s i. i };
  symlink = λ f t. record { keeps = λ s i. i };
  link = λ f t. record { keeps = λ s i. i };
  truncate = λ p n. record { keeps = λ s i. i };
  utimensat = λ p a m. record { keeps = λ s i. i };
  mmap = λ n. record { keeps = λ s i. i };
  munmap = λ a n. record { keeps = λ s i. i };
  pread = λ fd b n o. record { keeps = λ s i. i };
  pwrite = λ fd b d o. record { keeps = λ s i. i };
  lock = λ fd c l. record { keeps = λ s i. i };
  flock = λ fd o. record { keeps = λ s i. i };
  ioctl = λ fd c a. record { keeps = λ s i. i };
  statvfs = λ p. record { keeps = λ s i. i };
  fsync = λ fd. record { keeps = λ s i. i };
  fdatasync = λ fd. record { keeps = λ s i. i };
  lsetxattr = λ p n v f. record { keeps = λ s i. i };
  lgetxattr = λ p n l. record { keeps = λ s i. i };
  llistxattr = λ p l. record { keeps = λ s i. i };
  lremovexattr = λ p n. record { keeps = λ s i. i };
  wait_for_read = λ n. record { keeps = λ s i. i };
  wait_for_write = λ n. record { keeps = λ s i. i };
  user_belongs_to_group = λ u g. record { keeps = λ s i. i };
}

none_yet : Spares removals peers (λ n. n ≡ 0)
none_yet = record {
  files = none_removed;
  opendir = λ p. record { keeps = λ s i. i };
  closedir = record { keeps = λ s i. i };
}

abbrev requests : List (Context × Request)
requests =
    (caller, unlink (some (codes "/file")))
    ∷ (caller, mkdir (some (codes "/dir/new")) 0o755)
    ∷ (caller, rename (some (codes "/file")) (some (codes "/other")) 0)
    ∷ []

nothing_removed_example : serve_all removals peers locked requests 0 ≡ 0
nothing_removed_example = nothing_removed removals peers locked none_yet refl refl requests 0 refl

-- Here the state counts the directories that are open.
abbrev directories : Os
directories = record removals {
  opendir = λ p s. (
    ok (record {
      entries = record { d_name = codes "file"; is_link = false } ∷ [];
      failure = none;
    }),
    suc s,
  );
  closedir = λ s. (ok tt, s - 1);
}

resolve-Keeps_one : (p : Bytes) → Keeps (λ n. n ≡ 1) (resolve p)
resolve-Keeps_one [] = record { keeps = λ s i. i }
resolve-Keeps_one (c ∷ cs) = record { keeps = λ s i. ground arith }

one_open : SparesFiles directories peers (λ n. n ≡ 1)
one_open = record {
  realpath = λ p. resolve-Keeps_one p;
  lstat = λ p. record { keeps = λ s i. i };
  access = λ p a. record { keeps = λ s i. i };
  open_file = λ p f m. record { keeps = λ s i. i };
  close = λ fd. record { keeps = λ s i. i };
  blkgetsize64 = λ fd s i. i;
  chown = λ p u g. record { keeps = λ s i. i };
  lchown = λ p u g. record { keeps = λ s i. i };
  chmod = λ p m. record { keeps = λ s i. i };
  filler = λ n st. record { keeps = λ s i. i };
  readlink = λ p n. record { keeps = λ s i. i };
  mkfifo = λ p m. record { keeps = λ s i. i };
  mknod = λ p m d. record { keeps = λ s i. i };
  mkdir = λ p m. record { keeps = λ s i. i };
  symlink = λ f t. record { keeps = λ s i. i };
  link = λ f t. record { keeps = λ s i. i };
  truncate = λ p n. record { keeps = λ s i. i };
  utimensat = λ p a m. record { keeps = λ s i. i };
  mmap = λ n. record { keeps = λ s i. i };
  munmap = λ a n. record { keeps = λ s i. i };
  pread = λ fd b n o. record { keeps = λ s i. i };
  pwrite = λ fd b d o. record { keeps = λ s i. i };
  lock = λ fd c l. record { keeps = λ s i. i };
  flock = λ fd o. record { keeps = λ s i. i };
  ioctl = λ fd c a. record { keeps = λ s i. i };
  statvfs = λ p. record { keeps = λ s i. i };
  fsync = λ fd. record { keeps = λ s i. i };
  fdatasync = λ fd. record { keeps = λ s i. i };
  lsetxattr = λ p n v f. record { keeps = λ s i. i };
  lgetxattr = λ p n l. record { keeps = λ s i. i };
  llistxattr = λ p l. record { keeps = λ s i. i };
  lremovexattr = λ p n. record { keeps = λ s i. i };
  wait_for_read = λ n. record { keeps = λ s i. i };
  wait_for_write = λ n. record { keeps = λ s i. i };
  user_belongs_to_group = λ u g. record { keeps = λ s i. i };
}

readdir-closes_example :
    Keeps (λ n. n ≡ 0) (bindfs_readdir directories peers plain caller (some (codes "/dir")) true)
readdir-closes_example =
    readdir-closes directories peers plain (λ n. n ≡ 0) (λ n. n ≡ 1) caller resolve-Keeps
      (λ p s i. omega arith) one_open (λ s j. omega arith) (some (codes "/dir")) true
