-- ===== src/Fs/Ops/Files.antt =====
-- The callbacks of src/bindfs.c on open files.
pub mod Transfer
use bindfs.Base.{ℕ, ◌+◌, ◌-◌, ◌%◌, ◌^◌, Option, Bool, true, ◌&&◌, not, ◌==◌}
use bindfs.Base.{bit_and, bit_or, if◌then◌else◌, length}
use bindfs.Base.Bits.{complement}
use bindfs.Base.Errors.{Result, ok, err, enomem}
use bindfs.Base.Text.{Bytes}
use bindfs.Mode.{s_ifreg}
use bindfs.Permchain.Apply.{permchain_apply}
use bindfs.Fs.Settings.{Settings, Context}
use bindfs.Fs.Os.{M, Os, Peers, Buffer, caller, mapped, pure, fail, ◌>>=◌, ◌>>◌, attempt}
use bindfs.Fs.Common.{process_path}
use bindfs.Fs.Create.{chown_new_file, call_chown}

-- O_DIRECT on Linux.
abbrev pub o_direct : ℕ
o_direct = 0o40000

-- `size` up to the next multiple of the alignment, in the 64 bits of a `size_t`. A remainder by 0 does not arise: the option is refused with the value 0.
unfoldable pub round_up_buffer_size_for_direct_io : ℕ → ℕ → ℕ
round_up_buffer_size_for_direct_io alignment size =
    let rem = size % alignment in if rem == 0 then size else (size - rem + alignment) % 2 ^ 64

module _ (os : Os) (peers : Peers os.State) (settings : Settings) (fc : Context) where
  unfoldable pub bindfs_truncate : Option Bytes → ℕ → M os.State (Unit {0})
  bindfs_truncate path size = do
    real_path ← process_path os peers settings path true
    os.truncate real_path size

  -- O_DIRECT is passed on only if the option says so.
  unfoldable pub open_flags : ℕ → ℕ
  open_flags flags = if settings.forward_odirect then flags else bit_and flags (complement o_direct)

  -- The result of `chown_new_file` is dropped.
  unfoldable pub bindfs_create : Option Bytes → ℕ → ℕ → M os.State ℕ
  unfolding open_flags
  bindfs_create path mode flags = do
    real_path ← process_path os peers settings path true
    let mode' = permchain_apply settings.create_permchain (bit_or mode s_ifreg)
    fd ← os.open_file real_path (open_flags flags) (bit_and mode' 0o777)
    attempt (chown_new_file os settings fc real_path call_chown)
    pure fd

  unfoldable pub bindfs_open : Option Bytes → ℕ → M os.State ℕ
  unfolding open_flags
  bindfs_open path flags = do
    real_path ← process_path os peers settings path true
    os.open_file real_path (open_flags flags) 0

  unfoldable pub bounces : ℕ → Bool
  bounces flags = not (bit_and flags o_direct == 0) && settings.forward_odirect

  -- The buffer of the transfer. Whatever keeps `mmap` from working is reported as ENOMEM.
  unfoldable pub transfer_buffer : ℕ → ℕ → M os.State Buffer
  unfolding bounces
  transfer_buffer flags size =
      if bounces flags
      then (do
        let mmap_size = round_up_buffer_size_for_direct_io settings.odirect_alignment size
        address ← attempt (os.mmap mmap_size)
        elim address [ err _ ↦ fail enomem | ok a ↦ pure (mapped a mmap_size) ])
      else pure caller

  unfoldable pub release_buffer : Buffer → M os.State (Unit {0})
  release_buffer caller = pure tt
  release_buffer (mapped a n) = do attempt (os.munmap a n); pure tt

  -- The value that a transfer returned, or its failure.
  abbrev pub outcome : {A : Type 0} → Result A → M os.State A
  outcome (ok a) = pure a
  outcome (err e) = fail e

  unfoldable pub bindfs_read : ℕ → ℕ → ℕ → ℕ → M os.State Bytes
  unfolding transfer_buffer release_buffer
  bindfs_read fh flags size offset = do
    if settings.read_limiter then peers.wait_for_read size else pure tt
    target ← transfer_buffer flags size
    res ← attempt (os.pread fh target size offset)
    release_buffer target
    outcome res

  unfoldable pub bindfs_write : ℕ → ℕ → Bytes → ℕ → M os.State ℕ
  unfolding transfer_buffer release_buffer
  bindfs_write fh flags buf offset = do
    if settings.write_limiter then peers.wait_for_write (length buf) else pure tt
    source ← transfer_buffer flags (length buf)
    res ← attempt (os.pwrite fh source buf offset)
    release_buffer source
    outcome res

  unfoldable pub bindfs_lock : ℕ → ℕ → ℕ → M os.State (Unit {0})
  bindfs_lock fh cmd lock = os.lock fh cmd lock

  unfoldable pub bindfs_flock : ℕ → ℕ → M os.State (Unit {0})
  bindfs_flock fh op = os.flock fh op

  unfoldable pub bindfs_ioctl : ℕ → ℕ → ℕ → M os.State ℕ
  bindfs_ioctl fh cmd arg = os.ioctl fh cmd arg

  unfoldable pub bindfs_release : ℕ → M os.State (Unit {0})
  bindfs_release fh = do attempt (os.close fh); pure tt

  unfoldable pub bindfs_fsync : Bool → ℕ → M os.State (Unit {0})
  bindfs_fsync isdatasync fh = if isdatasync then os.fdatasync fh else os.fsync fh
