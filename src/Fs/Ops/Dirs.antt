-- ===== src/Fs/Ops/Dirs.antt =====
-- `bindfs_readdir` of src/bindfs.c.
use bindfs.Base.{List, [], ◌∷◌, ◌++◌, Option, none, some, Bool, true, ◌&&◌, ◌||◌}
use bindfs.Base.{◌==◌, if◌then◌else◌}
use bindfs.Base.Errors.{Errno, ok, err, eio}
use bindfs.Base.Text.{Bytes}
use bindfs.Fs.Settings.{Settings, Context, Stat}
use bindfs.Fs.Os.{M, Os, Peers, Dirent, Listing, pure, fail, ◌>>=◌, ◌>>◌, attempt}
use bindfs.Fs.Common.{process_path}
use bindfs.Fs.Attr.{getattr_common}

module _ (os : Os) (peers : Peers os.State) (settings : Settings) (fc : Context) where
  -- The attributes of an entry: those of a link's target, if links are resolved and it has one.
  unfoldable pub entry_stat : Bytes → Bool → M os.State Stat
  entry_stat path is_link =
      if settings.resolve_symlinks && is_link
      then (do
        resolved ← attempt (os.realpath path)
        elim resolved [ ok target ↦ os.lstat target | err _ ↦ os.lstat path ])
      else os.lstat path

  -- What `filler` gets beside the name: the shown attributes, under FUSE_READDIR_PLUS.
  unfoldable pub entry_attr : Bool → Bytes → Dirent → M os.State (Option Stat)
  unfolding entry_stat
  entry_attr readdirplus dir de =
      if (settings.resolve_symlinks && de.is_link) || readdirplus
      then (do
        let path = dir ++ (b'/' ∷ de.d_name)
        st ← entry_stat path de.is_link
        if readdirplus
            then (do shown ← getattr_common os peers settings fc path st; pure (some shown))
            else pure none)
      else pure none

  -- The loop over the entries. A filler that does not take an entry ends it.
  unfoldable pub fill_entries : Bool → Bytes → List Dirent → M os.State (Unit {0})
  unfolding entry_attr
  fill_entries readdirplus dir [] = pure tt
  fill_entries readdirplus dir (de ∷ des) = do
    shown ← entry_attr readdirplus dir de
    taken ← attempt (os.filler de.d_name shown)
    elim taken [
      | ok _ ↦ fill_entries readdirplus dir des
      | err e ↦ fail (if e == 0 then eio else e)
    ]

  abbrev pub ending : Option Errno → M os.State (Unit {0})
  ending none = pure tt
  ending (some e) = fail e

  -- What follows `opendir`: the directory is closed on every way out.
  unfoldable pub list_directory : Bytes → Bool → Listing → M os.State (Unit {0})
  unfolding fill_entries
  list_directory real_path readdirplus listing = do
    result ← attempt (fill_entries readdirplus real_path listing.entries >> ending listing.failure)
    attempt os.closedir
    elim result [ ok _ ↦ pure tt | err e ↦ fail e ]

  unfoldable pub bindfs_readdir : Option Bytes → Bool → M os.State (Unit {0})
  unfolding list_directory process_path
  bindfs_readdir path readdirplus = do
    real_path ← process_path os peers settings path true
    listing ← os.opendir real_path
    list_directory real_path readdirplus listing
