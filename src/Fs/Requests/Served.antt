-- ===== src/Fs/Requests/Served.antt =====
-- What every request leaves alone under --delete-deny and --rename-deny.
use bindfs.Base.{
  ℕ, ◌||◌, List, [], ◌∷◌, Option, none, some, Bool, true, ◌==◌, ◌&&◌, length, ◌++◌, bit_and,
  if◌then◌else◌,
}
use bindfs.Base.Errors.{Errno, Result, ok, err, eio, eperm, eacces, enomem}
use bindfs.Base.Text.{Bytes}
use bindfs.Usermap.Arrays.{no_id}
use bindfs.Permchain.Apply.{permchain_apply}
use bindfs.Fs.Settings.{Settings, Context, ChmodPolicy, chmod_normal, chmod_ignore, chmod_deny}
use bindfs.Fs.Settings.{XattrPolicy, xattr_unimplemented, xattr_read_only, xattr_read_write}
use bindfs.Fs.Os.{◌>>◌}
use bindfs.Fs.Os.{M, Os, Peers, Listing, Buffer, caller, mapped, Dirent, pure, fail, ◌>>=◌}
use bindfs.Fs.Keeps.{Keeps, pure-Keeps, fail-Keeps, bind-Keeps, attempt-Keeps, if-Keeps}
use bindfs.Fs.Common.{process_path}
use bindfs.Fs.Ops.Owners.{allowed_x, bindfs_chmod, bindfs_chown, exec_changed}
use bindfs.Fs.Ops.Owners.Chown.{asked_uid-Keeps, asked_gid-Keeps}
use bindfs.Fs.Ops.Files.{
  bounces, round_up_buffer_size_for_direct_io, transfer_buffer, release_buffer, bindfs_read,
  bindfs_write, outcome,
}
use bindfs.Fs.Ops.Dirs.{entry_stat, entry_attr, fill_entries, ending}
use bindfs.Fs.Ops.Xattrs.{unless_read_only}
use bindfs.Fs.Requests.Spared.{SparesFiles, path-Keeps, getattr_common-Keeps}

module _ (os : Os) (peers : Peers os.State) (settings : Settings) {I : os.State → Type 0}
    (k : SparesFiles os peers I) where
  pub on_path :
      (fc : Context) {A : Type 0} (p : Option Bytes) (r : Bool) {f : Bytes → M os.State A}
      → ((real : Bytes) → Keeps I (f real))
      → Keeps I (process_path os peers settings p r >>= f)
  on_path fc p r h = bind-Keeps (path-Keeps os peers settings fc k p r) h

  pub chmod-Keeps :
      (fc : Context) (p : Option Bytes) (m : ℕ) → Keeps I (bindfs_chmod os peers settings p m)
  unfolding bindfs_chmod
  chmod-Keeps fc p m =
      on_path fc p true λ real. bind-Keeps (asked real) λ x. by_policy real x settings.chmod_policy
    where
      asked : (real : Bytes) → Keeps I (allowed_x os peers settings real m)
      asked real =
          if-Keeps settings.chmod_allow_x (bind-Keeps (k.lstat real) λ st. pure-Keeps _)
            (pure-Keeps none)

      by_policy :
          (real : Bytes) (x : Option (ℕ × ℕ)) (c : ChmodPolicy)
          → Keeps I (elim c [
            | chmod_normal ↦ os.chmod real (permchain_apply settings.chmod_permchain m)
            | chmod_ignore ↦ elim x [
              | none ↦ pure tt
              | some (st_mode, diff) ↦ os.chmod real (exec_changed st_mode diff)
            ]
            | chmod_deny ↦ elim x [
              | none ↦ fail eperm
              | some (st_mode, diff) ↦
                  if bit_and diff 0o7666 == 0 then os.chmod real m else fail eperm
            ]
          ])
      by_policy real x chmod_normal = k.chmod real _
      by_policy real none chmod_ignore = pure-Keeps tt
      by_policy real (some d) chmod_ignore = k.chmod real _
      by_policy real none chmod_deny = fail-Keeps eperm
      by_policy real (some (m', d)) chmod_deny =
          if-Keeps (bit_and d 0o7666 == 0) (k.chmod real m) (fail-Keeps eperm)

  pub any_chown-Keeps :
      (fc : Context) (p : Option Bytes) (u g : ℕ) → Keeps I (bindfs_chown os peers settings p u g)
  unfolding bindfs_chown
  any_chown-Keeps fc p u g = bind-Keeps (asked_uid-Keeps os peers settings I u) λ u'.
      bind-Keeps (asked_gid-Keeps os peers settings I g) λ g'.
        if-Keeps ((u' == no_id) && (g' == no_id)) (pure-Keeps tt)
          (on_path fc p true λ real. k.lchown real u' g')

  buffer-Keeps : (fc : Context) (n size : ℕ) → Keeps I (transfer_buffer os peers settings fc n size)
  unfolding transfer_buffer
  buffer-Keeps fc n size =
      if-Keeps (bounces os peers settings fc n)
        (attempt-Keeps (os.mmap wanted) _ (k.mmap wanted) chosen) (pure-Keeps caller)
    where
      wanted : ℕ
      wanted = round_up_buffer_size_for_direct_io settings.odirect_alignment size

      chosen :
          (r : Result ℕ) → Keeps I (elim r [ err _ ↦ fail enomem | ok a ↦ pure (mapped a wanted) ])
      chosen (ok a) = pure-Keeps _
      chosen (err e) = fail-Keeps enomem

  release-Keeps : (fc : Context) (b : Buffer) → Keeps I (release_buffer os peers settings fc b)
  unfolding release_buffer
  release-Keeps fc caller = pure-Keeps tt
  release-Keeps fc (mapped a n) = attempt-Keeps (os.munmap a n) _ (k.munmap a n) λ _. pure-Keeps tt

  outcome-Keeps :
      (fc : Context) {A : Type 0} (r : Result A) → Keeps I (outcome os peers settings fc r)
  outcome-Keeps fc (ok a) = pure-Keeps a
  outcome-Keeps fc (err e) = fail-Keeps e

  pub read-Keeps :
      (fc : Context) (fh n size o : ℕ) → Keeps I (bindfs_read os peers settings fc fh n size o)
  unfolding bindfs_read
  read-Keeps fc fh n size o =
      bind-Keeps (if-Keeps settings.read_limiter (k.wait_for_read size) (pure-Keeps tt)) λ _.
        bind-Keeps (buffer-Keeps fc n size) λ b.
          attempt-Keeps (os.pread fh b size o) _ (k.pread fh b size o)
            λ r. bind-Keeps (release-Keeps fc b) λ _. outcome-Keeps fc r

  pub write-Keeps :
      (fc : Context) (fh n : ℕ) (d : Bytes) (o : ℕ)
      → Keeps I (bindfs_write os peers settings fc fh n d o)
  unfolding bindfs_write
  write-Keeps fc fh n d o =
      bind-Keeps (if-Keeps settings.write_limiter (k.wait_for_write (length d)) (pure-Keeps tt))
        λ _. bind-Keeps (buffer-Keeps fc n (length d)) λ b.
          attempt-Keeps (os.pwrite fh b d o) _ (k.pwrite fh b d o)
            λ r. bind-Keeps (release-Keeps fc b) λ _. outcome-Keeps fc r

  pub xattr-Keeps :
      (fc : Context) {A : Type 0} {m : M os.State A}
      → Keeps I m
      → Keeps I (unless_read_only os peers settings m)
  unfolding unless_read_only
  xattr-Keeps fc {A} {m} h = by_policy settings.xattr_policy
    where
      by_policy : (x : XattrPolicy) → Keeps I (elim x [ xattr_read_only ↦ fail eacces | _ ↦ m ])
      by_policy xattr_unimplemented = h
      by_policy xattr_read_only = fail-Keeps eacces
      by_policy xattr_read_write = h

  entry_stat-Keeps :
      (fc : Context) (p : Bytes) (l : Bool) → Keeps I (entry_stat os peers settings fc p l)
  unfolding entry_stat
  entry_stat-Keeps fc p l =
      if-Keeps (settings.resolve_symlinks && l)
        (attempt-Keeps (os.realpath p) _ (k.realpath p) chosen) (k.lstat p)
    where
      chosen :
          (r : Result Bytes) → Keeps I (elim r [ ok target ↦ os.lstat target | err _ ↦ os.lstat p ])
      chosen (ok target) = k.lstat target
      chosen (err e) = k.lstat p

  entry_attr-Keeps :
      (fc : Context) (plus : Bool) (dir : Bytes) (de : Dirent)
      → Keeps I (entry_attr os peers settings fc plus dir de)
  unfolding entry_attr
  entry_attr-Keeps fc plus dir de =
      let path = dir ++ (b'/' ∷ de.d_name) in
      if-Keeps ((settings.resolve_symlinks && de.is_link) || plus)
        (bind-Keeps (entry_stat-Keeps fc path de.is_link) λ st.
          if-Keeps plus
            (bind-Keeps (getattr_common-Keeps os peers settings fc k path st)
              λ shown. pure-Keeps (some shown))
            (pure-Keeps none))
        (pure-Keeps none)

  entries-Keeps :
      (fc : Context) (plus : Bool) (dir : Bytes) (des : List Dirent)
      → Keeps I (fill_entries os peers settings fc plus dir des)
  unfolding fill_entries
  entries-Keeps fc plus dir [] = pure-Keeps tt
  entries-Keeps fc plus dir (de ∷ des) = bind-Keeps (entry_attr-Keeps fc plus dir de) λ shown.
      attempt-Keeps (os.filler de.d_name shown) _ (k.filler de.d_name shown)
        (goes_on (entries-Keeps fc plus dir des))
    where
      goes_on :
          Keeps I (fill_entries os peers settings fc plus dir des)
          → (r : Result (Unit {0}))
          → Keeps I (elim r [
            | ok _ ↦ fill_entries os peers settings fc plus dir des
            | err e ↦ fail (if e == 0 then eio else e)
          ])
      goes_on rest (ok u) = rest
      goes_on rest (err e) = fail-Keeps _

  ending-Keeps : (fc : Context) (e : Option Errno) → Keeps I (ending os peers settings fc e)
  ending-Keeps fc none = pure-Keeps tt
  ending-Keeps fc (some e) = fail-Keeps e

  pub listed-Keeps :
      (fc : Context) (real : Bytes) (plus : Bool) (listing : Listing)
      → Keeps I (
          fill_entries os peers settings fc plus real listing.entries
          >> ending os peers settings fc listing.failure)
  listed-Keeps fc real plus listing =
      bind-Keeps (entries-Keeps fc plus real listing.entries) λ _. ending-Keeps fc listing.failure
