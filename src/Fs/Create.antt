-- ===== src/Fs/Create.antt =====
-- `chown_new_file` of src/bindfs.c: who owns a file that a request has created.
pub mod Owners
use bindfs.Base.{ℕ, Option, none, some, ◌&&◌, ◌==◌, bit_and, if◌then◌else◌}
use bindfs.Base.Errors.{ok, err, eio}
use bindfs.Base.Text.{Bytes}
use bindfs.Misc.Paths.{my_dirname}
use bindfs.Mode.{s_isgid}
use bindfs.Usermap.{usermap_get_uid_or_default, usermap_get_gid_or_default}
use bindfs.Usermap.Arrays.{no_id}
use bindfs.Fs.Settings.{Settings, create_as_user, create_as_mounter, Context}
use bindfs.Fs.Os.{M, Os, pure, ◌>>=◌, ◌>>◌, attempt}
use bindfs.Fs.Ids.{unapply_uid_offset, unapply_gid_offset}
use bindfs.Fs.Common.{or_fail}

-- `chown` or `lchown`
pub data ChownCall : Type 0 where
  call_chown call_lchown : ChownCall

-- An id that is not `-1`, with the offset taken off.
abbrev pub unless_unset : (ℕ → Option ℕ) → ℕ → Option ℕ
unless_unset unapply id = if id == no_id then some id else unapply id

module _ (os : Os) (settings : Settings) (fc : Context) where
  unfoldable pub run_chown : ChownCall → Bytes → ℕ → ℕ → M os.State (Unit {0})
  run_chown call_chown = os.chown
  run_chown call_lchown = os.lchown

  -- The owner and group before the map: a directory with its setgid bit gives its own group.
  unfoldable pub policy_owner : Bytes → M os.State (ℕ × ℕ)
  policy_owner path = elim settings.create_policy [
    | create_as_mounter ↦ pure (no_id, no_id)
    | create_as_user ↦ (do
      dir ← attempt (os.lstat (my_dirname path))
      elim dir [
        | err _ ↦ pure (fc.uid, fc.gid)
        | ok st ↦ pure (fc.uid, if bit_and st.st_mode s_isgid == 0 then fc.gid else no_id)
      ])
  ]

  -- The owner that the new file gets, `(uid_t)-1` for none.
  unfoldable pub new_owner : ℕ → Option ℕ
  unfolding usermap_get_uid_or_default unapply_uid_offset
  new_owner owner =
      let mapped = usermap_get_uid_or_default settings.usermap_reverse fc.uid owner in
      elim (unless_unset (unapply_uid_offset settings) mapped) [
        | none ↦ none
        | some u ↦ some (if settings.create_for_uid == no_id then u else settings.create_for_uid)
      ]

  unfoldable pub new_group : ℕ → Option ℕ
  unfolding usermap_get_gid_or_default unapply_gid_offset
  new_group group =
      let mapped = usermap_get_gid_or_default settings.usermap_reverse fc.gid group in
      elim (unless_unset (unapply_gid_offset settings) mapped) [
        | none ↦ none
        | some g ↦ some (if settings.create_for_gid == no_id then g else settings.create_for_gid)
      ]

  -- A failure of the call is only logged.
  unfoldable pub chown_new_file : Bytes → ChownCall → M os.State (Unit {0})
  unfolding policy_owner new_owner new_group run_chown
  chown_new_file path chown_func = do
    (owner, group) ← policy_owner path
    file_owner ← or_fail eio (new_owner owner)
    file_group ← or_fail eio (new_group group)
    if (file_owner == no_id) && (file_group == no_id)
        then pure tt
        else (do attempt (run_chown chown_func path file_owner file_group); pure tt)
