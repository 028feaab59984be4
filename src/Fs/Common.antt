-- ===== src/Fs/Common.antt =====
-- What the callbacks of src/bindfs.c share: `process_path` and `is_mirrored_user`.
pub mod Paths
use bindfs.Base.{ℕ, ◌+◌, List, [], ◌∷◌, Option, none, some, Bool, true, false}
use bindfs.Base.{◌&&◌, ◌||◌, ◌==◌, ltb, if◌then◌else◌, length}
use bindfs.Base.Errors.{Errno, Result, ok, err, enoent, einval, eperm}
use bindfs.Base.Text.{Bytes, codes}
use bindfs.Misc.Paths.{path_starts_with}
use bindfs.Fs.Settings.{Settings}
use bindfs.Fs.Os.{M, Os, Peers, pure, fail, ◌>>=◌, attempt}

-- `while (*path == '/') ++path;`
unfoldable pub skip_slashes : Bytes → Bytes
skip_slashes [] = []
skip_slashes (c ∷ cs) = let rest = skip_slashes cs in if c == b'/' then rest else c ∷ cs

-- The path below the source directory, which is the working directory.
unfoldable pub relative_path : Bytes → Bytes
unfolding skip_slashes
relative_path path = elim (skip_slashes path) [ [] ↦ codes "." | c ∷ cs ↦ c ∷ cs ]

unfoldable pub contains_id : List ℕ → ℕ → Bool
contains_id [] uid = false
contains_id (u ∷ us) uid = (u == uid) || contains_id us uid

unfoldable pub is_mirroring_enabled : Settings → Bool
is_mirroring_enabled settings =
    ltb 0 (length settings.mirrored_users + length settings.mirrored_members)

-- The value of an option, or a failure.
abbrev pub or_fail : {S A : Type 0} → Errno → Option A → M S A
or_fail e none = fail e
or_fail e (some a) = pure a

module _ (os : Os) (peers : Peers os.State) (settings : Settings) where
  -- What becomes of the result of `realpath`. A broken link is worked on as it stands; a path in the
  -- mount itself would be a recursive call.
  unfoldable pub accept_real : Bytes → Result Bytes → M os.State Bytes
  accept_real path (err e) = if e == enoent then pure path else fail e
  accept_real path (ok real) =
      if path_starts_with real settings.mntdest (length settings.mntdest)
      then fail eperm
      else pure real

  unfoldable pub process_path : Option Bytes → Bool → M os.State Bytes
  unfolding relative_path accept_real
  process_path none resolve_symlinks = fail einval
  process_path (some path) resolve_symlinks =
      if resolve_symlinks && settings.resolve_symlinks
      then (do
        result ← attempt (os.realpath (relative_path path))
        accept_real (relative_path path) result)
      else pure (relative_path path)

  -- The loop over the groups; the first one that has the user ends it.
  unfoldable pub belongs_to_any : List ℕ → ℕ → M os.State Bool
  belongs_to_any [] uid = pure false
  belongs_to_any (g ∷ gs) uid = do
    found ← peers.user_belongs_to_group uid g
    if found then pure true else belongs_to_any gs uid

  unfoldable pub is_mirrored_user : ℕ → M os.State Bool
  unfolding contains_id belongs_to_any
  is_mirrored_user uid =
      if contains_id settings.mirrored_users uid
      then pure true
      else belongs_to_any settings.mirrored_members uid
