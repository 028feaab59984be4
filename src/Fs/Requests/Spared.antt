-- ===== src/Fs/Requests/Spared.antt =====
-- What the shared functions of src/bindfs.c leave alone, where the system calls other than those that
-- remove and rename leave it alone.
use bindfs.Base.{ℕ, List, [], ◌∷◌, Option, Bool, true, false, ◌==◌, ◌&&◌, not}
use bindfs.Base.Errors.{Result, ok, err, eio, eoverflow}
use bindfs.Base.Text.{Bytes}
use bindfs.Fs.Settings.{Settings, Context, Stat, CreatePolicy, create_as_user, create_as_mounter}
use bindfs.Fs.Os.{M, Os, Peers, Access, Buffer, r_ok, w_ok, x_ok, pure, ◌>>=◌}
use bindfs.Base.{bit_and, if◌then◌else◌}
use bindfs.Mode.{s_iflnk, s_isgid}
use bindfs.Usermap.Arrays.{no_id}
use bindfs.Misc.Paths.{my_dirname}
use bindfs.Permchain.Apply.{permchain_apply}
use bindfs.Fs.Os.{unchecked, attempt}
use bindfs.Fs.Keeps.{
  Keeps, pure-Keeps, fail-Keeps, bind-Keeps, attempt-Keeps, if-Keeps, or_fail-Keeps,
}
use bindfs.Fs.Common.{process_path, belongs_to_any}
use bindfs.Fs.Common.Paths.{process_path-Keeps}
use bindfs.Fs.Attr.{drop_unless, device_size, block_as_file, realistic_mode, shown_mode}
use bindfs.Fs.Attr.{shown_uid, shown_gid, finish_attr, asks_mirroring, by_mirroring, getattr_common}
use bindfs.Fs.Create.{
  ChownCall, call_chown, call_lchown, run_chown, policy_owner, new_owner, new_group, chown_new_file,
}

-- A property of the system's state that every call keeps but those that open or close a directory,
-- and `unlink`, `rmdir`, `rename` and `renameat2`.
pub record SparesFiles (os : Os) (peers : Peers os.State) (I : os.State → Type 0) : Type 0 where
  pub realpath : (p : Bytes) → Keeps I (os.realpath p)
  pub lstat : (p : Bytes) → Keeps I (os.lstat p)
  pub access : (p : Bytes) (a : Access) → Keeps I (os.access p a)
  pub open_file : (p : Bytes) (f m : ℕ) → Keeps I (os.open_file p f m)
  pub close : (fd : ℕ) → Keeps I (os.close fd)
  pub blkgetsize64 : (fd : ℕ) (s : os.State) → I s → I (os.blkgetsize64 fd s).1
  pub chown : (p : Bytes) (u g : ℕ) → Keeps I (os.chown p u g)
  pub lchown : (p : Bytes) (u g : ℕ) → Keeps I (os.lchown p u g)
  pub chmod : (p : Bytes) (m : ℕ) → Keeps I (os.chmod p m)
  pub filler : (n : Bytes) (st : Option Stat) → Keeps I (os.filler n st)
  pub readlink : (p : Bytes) (n : ℕ) → Keeps I (os.readlink p n)
  pub mkfifo : (p : Bytes) (m : ℕ) → Keeps I (os.mkfifo p m)
  pub mknod : (p : Bytes) (m d : ℕ) → Keeps I (os.mknod p m d)
  pub mkdir : (p : Bytes) (m : ℕ) → Keeps I (os.mkdir p m)
  pub symlink : (from to : Bytes) → Keeps I (os.symlink from to)
  pub link : (from to : Bytes) → Keeps I (os.link from to)
  pub truncate : (p : Bytes) (n : ℕ) → Keeps I (os.truncate p n)
  pub utimensat : (p : Bytes) (a m : ℕ) → Keeps I (os.utimensat p a m)
  pub mmap : (n : ℕ) → Keeps I (os.mmap n)
  pub munmap : (a n : ℕ) → Keeps I (os.munmap a n)
  pub pread : (fd : ℕ) (b : Buffer) (n o : ℕ) → Keeps I (os.pread fd b n o)
  pub pwrite : (fd : ℕ) (b : Buffer) (d : Bytes) (o : ℕ) → Keeps I (os.pwrite fd b d o)
  pub lock : (fd c l : ℕ) → Keeps I (os.lock fd c l)
  pub flock : (fd o : ℕ) → Keeps I (os.flock fd o)
  pub ioctl : (fd c a : ℕ) → Keeps I (os.ioctl fd c a)
  pub statvfs : (p : Bytes) → Keeps I (os.statvfs p)
  pub fsync : (fd : ℕ) → Keeps I (os.fsync fd)
  pub fdatasync : (fd : ℕ) → Keeps I (os.fdatasync fd)
  pub lsetxattr : (p n v : Bytes) (f : ℕ) → Keeps I (os.lsetxattr p n v f)
  pub lgetxattr : (p n : Bytes) (l : ℕ) → Keeps I (os.lgetxattr p n l)
  pub llistxattr : (p : Bytes) (l : ℕ) → Keeps I (os.llistxattr p l)
  pub lremovexattr : (p n : Bytes) → Keeps I (os.lremovexattr p n)
  pub wait_for_read : (n : ℕ) → Keeps I (peers.wait_for_read n)
  pub wait_for_write : (n : ℕ) → Keeps I (peers.wait_for_write n)
  pub user_belongs_to_group : (u g : ℕ) → Keeps I (peers.user_belongs_to_group u g)

-- The calls on directories with them.
pub record Spares (os : Os) (peers : Peers os.State) (I : os.State → Type 0) : Type 0 where
  pub files : SparesFiles os peers I
  pub opendir : (p : Bytes) → Keeps I (os.opendir p)
  pub closedir : Keeps I os.closedir

module _ (os : Os) (peers : Peers os.State) (settings : Settings) (fc : Context)
    {I : os.State → Type 0} (k : SparesFiles os peers I) where
  pub path-Keeps : (p : Option Bytes) (r : Bool) → Keeps I (process_path os peers settings p r)
  path-Keeps p r = process_path-Keeps os peers settings I k.realpath p r

  belongs_to_any-Keeps : (gs : List ℕ) (u : ℕ) → Keeps I (belongs_to_any os peers settings gs u)
  unfolding belongs_to_any
  belongs_to_any-Keeps [] u = pure-Keeps false
  belongs_to_any-Keeps (g ∷ gs) u =
      bind-Keeps (k.user_belongs_to_group u g)
        λ found. if-Keeps found (pure-Keeps true) (belongs_to_any-Keeps gs u)

  asks_mirroring-Keeps : Keeps I (asks_mirroring os peers settings fc)
  unfolding asks_mirroring
  asks_mirroring-Keeps =
      if-Keeps _
        (if-Keeps _ (pure-Keeps true) (belongs_to_any-Keeps settings.mirrored_members fc.uid))
        (pure-Keeps false)

  device_size-Keeps : (p : Bytes) → Keeps I (device_size os peers settings fc p)
  unfolding device_size
  device_size-Keeps p = bind-Keeps (k.open_file p 0 0) λ fd.
      bind-Keeps {m = unchecked (os.blkgetsize64 fd)}
        (record { keeps = λ s i. k.blkgetsize64 fd s i })
        λ size. attempt-Keeps (os.close fd) _ (k.close fd) λ _. pure-Keeps size

  block_as_file-Keeps : (p : Bytes) (st : Stat) → Keeps I (block_as_file os peers settings fc p st)
  unfolding block_as_file
  block_as_file-Keeps p st =
      if-Keeps _
        (bind-Keeps (device_size-Keeps p) λ size. if-Keeps _ (fail-Keeps eoverflow) (pure-Keeps _))
        (pure-Keeps st)

  realistic_mode-Keeps : (p : Bytes) (m : ℕ) → Keeps I (realistic_mode os peers settings fc p m)
  unfolding realistic_mode
  realistic_mode-Keeps p m = attempt-Keeps (os.access p r_ok) _ (k.access p r_ok) λ r.
      attempt-Keeps (os.access p w_ok) _ (k.access p w_ok) λ w.
        attempt-Keeps (os.access p x_ok) _ (k.access p x_ok)
          λ x. pure-Keeps (drop_unless x 0o111 (drop_unless w 0o222 (drop_unless r 0o444 m)))

  shown_mode-Keeps : (p : Bytes) (m : ℕ) → Keeps I (shown_mode os peers settings fc p m)
  unfolding shown_mode
  shown_mode-Keeps p m = if-Keeps (bit_and m s_iflnk == s_iflnk) (pure-Keeps m) (
      if-Keeps settings.realistic_permissions
        (realistic_mode-Keeps p (permchain_apply settings.permchain m))
        (pure-Keeps (permchain_apply settings.permchain m)))

  finish_attr-Keeps : (p : Bytes) (st : Stat) → Keeps I (finish_attr os peers settings fc p st)
  unfolding finish_attr
  finish_attr-Keeps p st =
      bind-Keeps (block_as_file-Keeps p _)
        λ st'. bind-Keeps (shown_mode-Keeps p st'.st_mode) λ m. pure-Keeps _

  by_mirroring-Keeps :
      (p : Bytes) (st : Stat) (mirrored : Bool)
      → Keeps I (by_mirroring os peers settings fc p st mirrored)
  unfolding by_mirroring
  by_mirroring-Keeps p st true = finish_attr-Keeps p (record st { st_uid = fc.uid })
  by_mirroring-Keeps p st false =
      if-Keeps (settings.mirrored_users_only && not (fc.uid == 0)) (pure-Keeps _)
        (finish_attr-Keeps p st)

  pub getattr_common-Keeps :
      (p : Bytes) (st : Stat) → Keeps I (getattr_common os peers settings fc p st)
  unfolding getattr_common
  getattr_common-Keeps p st = bind-Keeps (or_fail-Keeps eio (shown_uid settings st.st_uid)) λ uid.
      bind-Keeps (or_fail-Keeps eio (shown_gid settings st.st_gid))
        λ gid. bind-Keeps asks_mirroring-Keeps λ mirrored. by_mirroring-Keeps p _ mirrored

  run_chown-Keeps :
      (c : ChownCall) (p : Bytes) (u g : ℕ) → Keeps I (run_chown os settings fc c p u g)
  unfolding run_chown
  run_chown-Keeps call_chown = k.chown
  run_chown-Keeps call_lchown = k.lchown

  policy_owner-Keeps : (p : Bytes) → Keeps I (policy_owner os settings fc p)
  unfolding policy_owner
  policy_owner-Keeps p = by_policy settings.create_policy
    where
      dir_owner : Result Stat → M os.State (ℕ × ℕ)
      dir_owner r = elim r [
        | err _ ↦ pure (fc.uid, fc.gid)
        | ok st ↦ pure (fc.uid, if bit_and st.st_mode s_isgid == 0 then fc.gid else no_id)
      ]

      dir_owner-Keeps : (r : Result Stat) → Keeps I (dir_owner r)
      dir_owner-Keeps (ok st) = pure-Keeps _
      dir_owner-Keeps (err e) = pure-Keeps _

      by_policy :
          (c : CreatePolicy)
          → Keeps I (elim c [
            | create_as_mounter ↦ pure (no_id, no_id)
            | create_as_user ↦ attempt (os.lstat (my_dirname p)) >>= dir_owner
          ])
      by_policy create_as_mounter = pure-Keeps _
      by_policy create_as_user =
          attempt-Keeps (os.lstat (my_dirname p)) dir_owner (k.lstat (my_dirname p)) dir_owner-Keeps

  pub chown_new_file-Keeps :
      (p : Bytes) (c : ChownCall) → Keeps I (chown_new_file os settings fc p c)
  unfolding chown_new_file
  chown_new_file-Keeps p c = bind-Keeps (policy_owner-Keeps p) λ owners.
      bind-Keeps (or_fail-Keeps eio (new_owner os settings fc owners.0)) λ u.
        bind-Keeps (or_fail-Keeps eio (new_group os settings fc owners.1)) λ g.
          if-Keeps ((u == no_id) && (g == no_id)) (pure-Keeps tt) (
            attempt-Keeps (run_chown os settings fc c p u g) _ (run_chown-Keeps c p u g)
              λ _. pure-Keeps tt)
