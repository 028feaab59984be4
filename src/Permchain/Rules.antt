-- ===== src/Permchain/Rules.antt =====
-- `struct permchain` of src/permchain.c.
use bindfs.Base.{ℕ, List, [], ◌∷◌}

-- `op` with its values '\0', '=', '+', '-' and 'o'.
pub data Op : Type 0 where
  nop assign add remove octal : Op

-- A letter of `as_operands`, a subset of rwxXDstugo.
pub data Operand : Type 0 where
  read write exec exec_if_any exec_if_dir setid sticky user group other : Operand

-- `as_operands` and `as_octal` share their memory in C; `op` says which of them holds a value.
pub record Node : Type 0 where
  pub op : Op
  pub flags : ℕ
  pub mask : ℕ
  pub as_operands : List Operand
  pub as_octal : ℕ

abbrev pub Permchain : Type 0
Permchain = List Node

abbrev pub pc_apply_files : ℕ
pc_apply_files = 1

abbrev pub pc_apply_dirs : ℕ
pc_apply_dirs = 2

abbrev pub pc_flags_default : ℕ
pc_flags_default = 3

abbrev pub new_node : Node
new_node = record { op = nop; flags = pc_flags_default; mask = 0; as_operands = []; as_octal = 0 }

unfoldable pub permchain_create : Permchain
permchain_create = new_node ∷ []

-- `left` keeps its nodes, and `right` hangs behind the last of them.
unfoldable pub permchain_cat : Permchain → Permchain → Permchain
permchain_cat [] right = right
permchain_cat (n ∷ left) right = n ∷ permchain_cat left right
