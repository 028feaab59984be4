-- ===== src/Fs/Ids.antt =====
-- The offsets that src/bindfs.c adds to user and group ids, with overflow checking.
pub mod Offsets
use bindfs.Base.{ℕ, ◌-◌, ◌^◌, ◌&&◌, Option, none, some, if◌then◌else◌}
use bindfs.Base.Int.{ℤ, pos, negsuc, ◌+ℤ◌, neg, leb_ℤ, pos_part}
use bindfs.Fs.Settings.{Settings}

-- The largest `int32_t`, which UID_T_MAX and GID_T_MAX are.
abbrev pub id_max : ℕ
id_max = 2 ^ 31 - 1

abbrev pub int64_min : ℤ
int64_min = negsuc (2 ^ 63 - 1)

abbrev pub int64_max : ℤ
int64_max = pos (2 ^ 63 - 1)

-- A sum outside of `int64_t` is an overflow of `__builtin_add_overflow`.
unfoldable pub bounded_add : ℤ → ℤ → ℤ → Option ℤ
unfolding ◌+ℤ◌
bounded_add a b max =
    let result = a +ℤ b in
    if leb_ℤ int64_min result && leb_ℤ result int64_max && leb_ℤ (pos 0) result && leb_ℤ result max
    then some result
    else none

-- `none` is the return of `false`; the value in range is converted back.
unfoldable pub shift_id : ℤ → ℕ → Option ℕ
unfolding bounded_add
shift_id offset id = elim (bounded_add (pos id) offset (pos id_max)) [
  | none ↦ none
  | some value ↦ some (pos_part value)
]

module _ (settings : Settings) where
  unfoldable pub apply_uid_offset : ℕ → Option ℕ
  apply_uid_offset = shift_id settings.uid_offset

  unfoldable pub apply_gid_offset : ℕ → Option ℕ
  apply_gid_offset = shift_id settings.gid_offset

  unfoldable pub unapply_uid_offset : ℕ → Option ℕ
  unapply_uid_offset = shift_id (neg settings.uid_offset)

  unfoldable pub unapply_gid_offset : ℕ → Option ℕ
  unapply_gid_offset = shift_id (neg settings.gid_offset)
