-- ===== src/Fs/Requests/Deletion.antt =====
-- Whole sequences of requests under --delete-deny and --rename-deny.
use bindfs.Base.{ℕ, ◌≡◌, List, [], ◌∷◌, Option, true, false}
use bindfs.Base.Errors.{eperm}
use bindfs.Base.Text.{Bytes}
use bindfs.Mode.{is_fifo}
use bindfs.Permchain.Apply.{permchain_apply}
use bindfs.Fs.Settings.{Settings, Context}
use bindfs.Fs.Os.{M, Os, Peers}
use bindfs.Fs.Keeps.{Keeps, pure-Keeps, fail-Keeps, bind-Keeps, attempt-Keeps, if-Keeps}
use bindfs.Fs.Create.{call_chown, call_lchown, chown_new_file}
use bindfs.Fs.Delete.{DeleteCall, delete_file, call_unlink, call_rmdir}
use bindfs.Fs.Ops.Nodes.{bindfs_getattr, bindfs_readlink, bindfs_mknod, bindfs_mkdir, bindfs_unlink}
use bindfs.Fs.Ops.Nodes.{bindfs_rmdir, bindfs_symlink, bindfs_rename, bindfs_link, bindfs_statfs}
use bindfs.Fs.Ops.Owners.{bindfs_utimens}
use bindfs.Fs.Ops.Files.{bindfs_truncate, bindfs_create, bindfs_open, bindfs_lock, bindfs_flock}
use bindfs.Fs.Ops.Files.{bindfs_ioctl, bindfs_release, bindfs_fsync}
use bindfs.Fs.Ops.Xattrs.{bindfs_setxattr, bindfs_getxattr, bindfs_listxattr, bindfs_removexattr}
use bindfs.Fs.Requests.{
  Request, getattr, readlink, readdir, mknod, mkdir, unlink, rmdir, symlink, rename,
}
use bindfs.Fs.Requests.{
  link, chmod, chown, truncate, utimens, create, open_file, read, write, lock, flock,
}
use bindfs.Fs.Requests.{ioctl, statfs, release, fsync, setxattr, getxattr, listxattr, removexattr}
use bindfs.Fs.Requests.{served, serve, serve_all}
use bindfs.Fs.Requests.Spared.{Spares, getattr_common-Keeps, chown_new_file-Keeps}
use bindfs.Fs.Requests.Directories.{readdir-Keeps}
use bindfs.Fs.Requests.Served.{
  on_path, chmod-Keeps, any_chown-Keeps, read-Keeps, write-Keeps, xattr-Keeps,
}

served-Keeps : {S A : Type 0} {I : S → Type 0} {m : M S A} → Keeps I m → Keeps I (served m)
served-Keeps h = bind-Keeps h λ _. pure-Keeps tt

module _ (os : Os) (peers : Peers os.State) (settings : Settings) {I : os.State → Type 0}
    (k : Spares os peers I) (no_delete : settings.delete_deny ≡ true)
    (no_rename : settings.rename_deny ≡ true) where
  delete-Keeps : (p : Option Bytes) (c : DeleteCall) → Keeps I (delete_file os peers settings p c)
  unfolding delete_file
  delete-Keeps p c = rw no_delete (fail-Keeps eperm)

  rename-Keeps :
      (fc : Context) (from to : Option Bytes) (n : ℕ)
      → Keeps I (bindfs_rename os peers settings fc from to n)
  unfolding bindfs_rename
  rename-Keeps fc from to n = rw no_rename (fail-Keeps eperm)

  mknod-Keeps :
      (fc : Context) (p : Option Bytes) (m d : ℕ)
      → Keeps I (bindfs_mknod os peers settings fc p m d)
  unfolding bindfs_mknod
  mknod-Keeps fc p m d = on_path os peers settings k.files fc p true λ real.
      bind-Keeps
        (if-Keeps (is_fifo (permchain_apply settings.create_permchain m)) (k.files.mkfifo real _)
          (k.files.mknod real _ d))
        λ _. chown_new_file-Keeps os peers settings fc k.files real call_chown

  create-Keeps :
      (fc : Context) (p : Option Bytes) (m n : ℕ)
      → Keeps I (bindfs_create os peers settings fc p m n)
  unfolding bindfs_create
  create-Keeps fc p m n = on_path os peers settings k.files fc p true λ real.
      bind-Keeps (k.files.open_file real _ _) λ fd.
        attempt-Keeps (chown_new_file os settings fc real call_chown) _
          (chown_new_file-Keeps os peers settings fc k.files real call_chown) λ _. pure-Keeps fd

  symlink-Keeps :
      (fc : Context) (from : Bytes) (to : Option Bytes)
      → Keeps I (bindfs_symlink os peers settings fc from to)
  unfolding bindfs_symlink
  symlink-Keeps fc from to = if-Keeps settings.resolve_symlinks (fail-Keeps eperm) (
      on_path os peers settings k.files fc to false λ real.
        bind-Keeps (k.files.symlink from real)
          λ _. chown_new_file-Keeps os peers settings fc k.files real call_lchown)

  serve-Keeps : (fc : Context) (r : Request) → Keeps I (serve os peers settings fc r)
  unfolding serve bindfs_getattr bindfs_readlink bindfs_mkdir bindfs_unlink bindfs_rmdir bindfs_link
      bindfs_statfs bindfs_utimens bindfs_truncate bindfs_open bindfs_lock bindfs_flock bindfs_ioctl
      bindfs_release bindfs_fsync bindfs_setxattr bindfs_getxattr bindfs_listxattr
      bindfs_removexattr
  serve-Keeps fc (getattr p) = served-Keeps (
      on_path os peers settings k.files fc p true λ real.
        bind-Keeps (k.files.lstat real)
          λ st. getattr_common-Keeps os peers settings fc k.files real st)
  serve-Keeps fc (readlink p n) =
      served-Keeps (on_path os peers settings k.files fc p true λ real. k.files.readlink real _)
  serve-Keeps fc (readdir p plus) = served-Keeps (readdir-Keeps os peers settings k fc p plus)
  serve-Keeps fc (mknod p m d) = served-Keeps (mknod-Keeps fc p m d)
  serve-Keeps fc (mkdir p m) = served-Keeps (
      on_path os peers settings k.files fc p true λ real.
        bind-Keeps (k.files.mkdir real _)
          λ _. chown_new_file-Keeps os peers settings fc k.files real call_chown)
  serve-Keeps fc (unlink p) = served-Keeps (delete-Keeps p call_unlink)
  serve-Keeps fc (rmdir p) = served-Keeps (delete-Keeps p call_rmdir)
  serve-Keeps fc (symlink from to) = served-Keeps (symlink-Keeps fc from to)
  serve-Keeps fc (rename from to n) = served-Keeps (rename-Keeps fc from to n)
  serve-Keeps fc (link from to) = served-Keeps (
      on_path os peers settings k.files fc from true
        λ real. on_path os peers settings k.files fc to true λ real_to. k.files.link real real_to)
  serve-Keeps fc (chmod p m) = served-Keeps (chmod-Keeps os peers settings k.files fc p m)
  serve-Keeps fc (chown p u g) = served-Keeps (any_chown-Keeps os peers settings k.files fc p u g)
  serve-Keeps fc (truncate p n) =
      served-Keeps (on_path os peers settings k.files fc p true λ real. k.files.truncate real n)
  serve-Keeps fc (utimens p a m) =
      served-Keeps (on_path os peers settings k.files fc p true λ real. k.files.utimensat real a m)
  serve-Keeps fc (create p m n) = served-Keeps (create-Keeps fc p m n)
  serve-Keeps fc (open_file p n) =
      served-Keeps (on_path os peers settings k.files fc p true λ real. k.files.open_file real _ 0)
  serve-Keeps fc (read fh n size o) =
      served-Keeps (read-Keeps os peers settings k.files fc fh n size o)
  serve-Keeps fc (write fh n buf o) =
      served-Keeps (write-Keeps os peers settings k.files fc fh n buf o)
  serve-Keeps fc (lock fh c l) = served-Keeps (k.files.lock fh c l)
  serve-Keeps fc (flock fh o) = served-Keeps (k.files.flock fh o)
  serve-Keeps fc (ioctl fh c a) = served-Keeps (k.files.ioctl fh c a)
  serve-Keeps fc (statfs p) =
      served-Keeps (on_path os peers settings k.files fc p true λ real. k.files.statvfs real)
  serve-Keeps fc (release fh) =
      served-Keeps (attempt-Keeps (os.close fh) _ (k.files.close fh) λ _. pure-Keeps tt)
  serve-Keeps fc (fsync d fh) = served-Keeps (if-Keeps d (k.files.fdatasync fh) (k.files.fsync fh))
  serve-Keeps fc (setxattr p n v f) = served-Keeps (
      xattr-Keeps os peers settings k.files fc
        (on_path os peers settings k.files fc p true λ real. k.files.lsetxattr real n v f))
  serve-Keeps fc (getxattr p n l) =
      served-Keeps (on_path os peers settings k.files fc p true λ real. k.files.lgetxattr real n l)
  serve-Keeps fc (listxattr p l) =
      served-Keeps (on_path os peers settings k.files fc p true λ real. k.files.llistxattr real l)
  serve-Keeps fc (removexattr p n) = served-Keeps (
      xattr-Keeps os peers settings k.files fc
        (on_path os peers settings k.files fc p true λ real. k.files.lremovexattr real n))

  -- Under --delete-deny and --rename-deny no sequence of requests, by whatever users, removes or
  -- renames anything: what every system call but `unlink`, `rmdir`, `rename` and `renameat2` leaves
  -- alone is left alone by all of them together.
  pub nothing_removed :
      (rs : List (Context × Request)) (s : os.State) → I s → I (serve_all os peers settings rs s)
  unfolding serve_all
  nothing_removed [] s i = i
  nothing_removed ((fc, r) ∷ rs) s i = nothing_removed rs _ ((serve-Keeps fc r).keeps s i)
