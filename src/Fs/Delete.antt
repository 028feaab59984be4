-- ===== src/Fs/Delete.antt =====
-- `delete_file` of src/bindfs.c: the common part of unlink and rmdir.
use bindfs.Base.{Option, none, some, false, ◌==◌, if◌then◌else◌}
use bindfs.Base.Errors.{ok, err, eperm, enoent}
use bindfs.Base.Text.{Bytes}
use bindfs.Mode.{is_lnk}
use bindfs.Fs.Settings.{Settings, deletion_deny, deletion_symlink_only}
use bindfs.Fs.Settings.{deletion_symlink_first, deletion_target_first}
use bindfs.Fs.Os.{M, Os, Peers, pure, fail, ◌>>=◌, ◌>>◌, attempt}
use bindfs.Fs.Common.{process_path}

-- `unlink` or `rmdir`
pub data DeleteCall : Type 0 where
  call_unlink call_rmdir : DeleteCall

module _ (os : Os) (peers : Peers os.State) (settings : Settings) where
  unfoldable pub run_delete : DeleteCall → Bytes → M os.State (Unit {0})
  run_delete call_unlink = os.unlink
  run_delete call_rmdir = os.rmdir

  -- `realpath` of a link, where a broken link has no target.
  unfoldable pub link_target : Bytes → M os.State (Option Bytes)
  link_target real_path = do
    result ← attempt (os.realpath real_path)
    elim result [
      | ok target ↦ pure (some target)
      | err e ↦ if e == enoent then pure none else fail e
    ]

  -- The switch on the policy, for a symbolic link: `main_delete_func` and `also_try_delete`.
  unfoldable pub link_plan : DeleteCall → Bytes → M os.State (DeleteCall × Option Bytes)
  unfolding link_target
  link_plan target_delete real_path = elim settings.resolved_symlink_deletion_policy [
    | deletion_deny ↦ fail eperm
    | deletion_symlink_only ↦ pure (call_unlink, none)
    | deletion_symlink_first ↦ (do target ← link_target real_path; pure (call_unlink, target))
    | deletion_target_first ↦ (do
      target ← link_target real_path
      elim target [
        | none ↦ pure (target_delete, none)
        | some t ↦ (do os.unlink t; pure (target_delete, none))
      ])
  ]

  unfoldable pub deletion_plan : DeleteCall → Bytes → M os.State (DeleteCall × Option Bytes)
  unfolding link_plan
  deletion_plan target_delete real_path =
      if settings.resolve_symlinks
      then (do
        st ← os.lstat real_path
        if is_lnk st.st_mode then link_plan target_delete real_path else pure (target_delete, none))
      else pure (target_delete, none)

  unfoldable pub delete_file : Option Bytes → DeleteCall → M os.State (Unit {0})
  unfolding deletion_plan run_delete process_path
  delete_file path target_delete = if settings.delete_deny then fail eperm else (do
    real_path ← process_path os peers settings path false
    (main_delete, also) ← deletion_plan target_delete real_path
    run_delete main_delete real_path
    elim also [
      | none ↦ pure tt
      | some target ↦ (do attempt (run_delete target_delete target); pure tt)
    ])
