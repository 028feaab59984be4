-- ===== src/Userinfo/Names.antt =====
-- `user_uid` and `group_gid` of src/userinfo.c: ids from numbers and from names.
use bindfs.Base.{ℕ, zero, suc, ◌-◌, ◌*◌, ◌%◌, ◌^◌, [], ◌∷◌, Option, none, some}
use bindfs.Base.Int.{ℤ, pos, negsuc}
use bindfs.Base.Text.{Bytes}

-- What `getpwnam_r` and `getgrnam_r` give with a buffer of some size: the id of the entry, no entry,
-- or ERANGE.
pub data Lookup : Type 0 where
  found : ℕ → Lookup
  missing : Lookup
  too_small : Lookup

-- The calls of the C library. `strtol` gives the value in base 10 and what stands behind it.
-- `rounds` is the fuel of the loops that double the buffer.
pub record NameDb : Type 0 where
  pub strtol : Bytes → ℤ × Bytes
  pub getpwnam_r : Bytes → ℕ → Lookup
  pub getgrnam_r : Bytes → ℕ → Lookup
  pub rounds : ℕ

-- The conversion of a `long` to the 32 bits of an id.
abbrev pub to_id : ℤ → ℕ
to_id (pos n) = n % 2 ^ 32
to_id (negsuc n) = 2 ^ 32 - 1 - n % 2 ^ 32

-- `while (res == ERANGE)`, each time with a buffer of twice the size.
unfoldable pub retry : ℕ → (ℕ → Lookup) → ℕ → Lookup
retry zero look buflen = look buflen
retry (suc fuel) look buflen = elim (look buflen) [
  | too_small ↦ retry fuel look (buflen * 2)
  | found id ↦ found id
  | missing ↦ missing
]

abbrev pub to_option : Lookup → Option ℕ
to_option (found id) = some id
to_option missing = none
to_option too_small = none

-- A text that `strtol` reads as a whole is a number, also the empty one.
abbrev by_name : Bytes → ℤ → Option ℕ → Option ℕ
by_name [] value named = some (to_id value)
by_name (c ∷ cs) value named = named

module _ (db : NameDb) where
  unfoldable pub user_uid : Bytes → Option ℕ
  unfolding retry
  user_uid username =
      let (uid, endptr) = db.strtol username in
      by_name endptr uid (to_option (retry db.rounds (db.getpwnam_r username) 1024))

  unfoldable pub group_gid : Bytes → Option ℕ
  unfolding retry
  group_gid groupname =
      let (gid, endptr) = db.strtol groupname in
      by_name endptr gid (to_option (retry db.rounds (db.getgrnam_r groupname) 1024))
