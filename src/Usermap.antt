-- ===== src/Usermap.antt =====
-- src/usermap.c: the tables that translate user and group ids. The code for users and the code for
-- groups are the same text over two sets of fields, so both are one table here.
pub mod Arrays
pub mod Laws
pub mod Inverse
pub mod Cells
use bindfs.Base.{ℕ}
use Arrays.{Table, Status, empty_table, table_add, table_get}

pub record UserMap : Type 0 where
  pub users : Table
  pub groups : Table

unfoldable pub usermap_create : UserMap
unfolding empty_table
usermap_create = record { users = empty_table; groups = empty_table }

unfoldable pub usermap_add_uid : UserMap → ℕ → ℕ → Status × UserMap
usermap_add_uid m from to = let (s, t) = table_add m.users from to in (s, record m { users = t })

unfoldable pub usermap_add_gid : UserMap → ℕ → ℕ → Status × UserMap
usermap_add_gid m from to = let (s, t) = table_add m.groups from to in (s, record m { groups = t })

unfoldable pub usermap_get_uid_or_default : UserMap → ℕ → ℕ → ℕ
usermap_get_uid_or_default m u deflt = table_get m.users u deflt

unfoldable pub usermap_get_gid_or_default : UserMap → ℕ → ℕ → ℕ
usermap_get_gid_or_default m g deflt = table_get m.groups g deflt
