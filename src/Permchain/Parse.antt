-- ===== src/Permchain/Parse.antt =====
-- `add_chmod_rules_to_permchain` of src/permchain.c and the two functions that it calls.
-- A failed call, which returns -1 and leaves the chain alone, is `none`. Memory is taken to suffice.
pub mod Nodes
pub mod Chains
use bindfs.Base.{ℕ, zero, suc, ◌+◌, ◌-◌, ◌*◌, List, [], ◌∷◌, ◌++◌, Option, none, some}
use bindfs.Base.{Bool, true, false, not, ◌&&◌, ◌||◌, bit_or, ◌==◌, ltb, leb, if◌then◌else◌, length}
use bindfs.Base.Text.{Bytes}
use bindfs.Base.Maybe.{◌>>=◌}
use bindfs.Permchain.Rules.{Op, nop, assign, add, remove, octal, Operand, read, write, exec}
use bindfs.Permchain.Rules.{exec_if_any, exec_if_dir, setid, sticky, user, group, other}
use bindfs.Permchain.Rules.{Node, Permchain, new_node, permchain_create, permchain_cat}
use bindfs.Permchain.Rules.{pc_apply_files, pc_apply_dirs, pc_flags_default}

-- `LHS` and `RHS`
pub data Phase : Type 0 where
  lhs rhs : Phase

-- The operators '=', '+' and '-'. The first character of a rule stands for all classes.
unfoldable pub operator : Bool → Op → Node → Option (Phase × Node)
operator first op n = some (rhs, record n { op = op; mask = if first then 0o777 else n.mask })

-- The switch before the operator.
unfoldable pub lhs_char : Bool → ℕ → Node → Option (Phase × Node)
unfolding operator
lhs_char first c n =
    if c == b'u'
    then some (lhs, record n { mask = bit_or n.mask 0o700 })
    else if c == b'g'
    then some (lhs, record n { mask = bit_or n.mask 0o070 })
    else if c == b'o'
    then some (lhs, record n { mask = bit_or n.mask 0o007 })
    else if c == b'a'
    then some (lhs, record n { mask = 0o777 })
    else if c == b'f'
    then some (lhs, record n { flags = bit_or n.flags pc_apply_files })
    else if c == b'd'
    then some (lhs, record n { flags = bit_or n.flags pc_apply_dirs })
    else if c == b'='
    then operator first assign n
    else if c == b'+'
    then operator first add n
    else if c == b'-'
    then operator first remove n
    else none

unfoldable pub operand_of_char : ℕ → Option Operand
operand_of_char c =
    if c == b'r'
    then some read
    else if c == b'w'
    then some write
    else if c == b'x'
    then some exec
    else if c == b'X'
    then some exec_if_any
    else if c == b'D'
    then some exec_if_dir
    else if c == b's'
    then some setid
    else if c == b't'
    then some sticky
    else if c == b'u'
    then some user
    else if c == b'g'
    then some group
    else if c == b'o'
    then some other
    else none

unfoldable pub operand_rank : Operand → ℕ
operand_rank read = 0
operand_rank write = 1
operand_rank exec = 2
operand_rank exec_if_any = 3
operand_rank exec_if_dir = 4
operand_rank setid = 5
operand_rank sticky = 6
operand_rank user = 7
operand_rank group = 8
operand_rank other = 9

-- `strchr(newpc->mode.as_operands, *p)`
unfoldable pub has_operand : List Operand → Operand → Bool
unfolding operand_rank
has_operand [] o = false
has_operand (p ∷ ps) o = (operand_rank p == operand_rank o) || has_operand ps o

-- The switch behind the operator. A letter is written once.
unfoldable pub rhs_char : ℕ → Node → Option Node
unfolding operand_of_char has_operand
rhs_char c n = do
  o ← operand_of_char c
  if has_operand n.as_operands o
      then some n
      else some (record n { as_operands = n.as_operands ++ (o ∷ []) })

-- The loop over the characters of one rule; `first` is the test `p == buf`.
unfoldable pub chmod_rule_loop : Phase → Bool → Bytes → Node → Option Node
unfolding lhs_char rhs_char
chmod_rule_loop phase first [] n = some n
chmod_rule_loop lhs first (c ∷ cs) n = do
  (phase, n') ← lhs_char first c n
  chmod_rule_loop phase false cs n'
chmod_rule_loop rhs first (c ∷ cs) n = do n' ← rhs_char c n; chmod_rule_loop rhs false cs n'

-- No 'f' and no 'd' stands for both.
unfoldable pub default_flags : Node → Node
default_flags n = if n.flags == 0 then record n { flags = pc_flags_default } else n

unfoldable pub add_chmod_rule_to_permchain : Bytes → Permchain → Option Permchain
unfolding chmod_rule_loop default_flags permchain_cat
add_chmod_rule_to_permchain rule pc = do
  n ← chmod_rule_loop lhs true rule (record new_node { flags = 0 })
  some (permchain_cat pc (default_flags n ∷ []))

-- `strtol(buf, NULL, 8)` of a text that begins with a digit: the value of its leading octal digits.
-- The library's limit of a `long` lies above every mode that the caller accepts.
unfoldable pub strtol_octal : Bytes → ℕ → ℕ
strtol_octal [] acc = acc
strtol_octal (c ∷ cs) acc =
    let rest = strtol_octal cs (acc * 8 + (c - b'0')) in
    if leb b'0' c && leb c b'7' then rest else acc

unfoldable pub add_octal_rule_to_permchain : Bytes → Permchain → Option Permchain
unfolding strtol_octal permchain_cat
add_octal_rule_to_permchain rule pc =
    let mode = strtol_octal rule 0 in
    if ltb 0o777 mode
    then none
    else some
        (permchain_cat pc (record new_node { mask = 0o777; op = octal; as_octal = mode } ∷ []))

abbrev pub is_delimiter : ℕ → Bool
is_delimiter c = (c == b',') || (c == b':')

-- The inner loop: the characters up to the next delimiter, and what begins there.
unfoldable pub until_delimiter : Bytes → Bytes × Bytes
until_delimiter [] = ([], [])
until_delimiter (c ∷ cs) =
    let (token, rest) = until_delimiter cs in
    if is_delimiter c then ([], c ∷ cs) else (c ∷ token, rest)

abbrev pub is_digit : ℕ → Bool
is_digit c = leb b'0' c && leb c b'9'

-- One rule; an empty one is an error.
unfoldable pub add_rule : Bytes → Permchain → Option Permchain
unfolding add_octal_rule_to_permchain add_chmod_rule_to_permchain
add_rule [] pc = none
add_rule (c ∷ cs) pc =
    if is_digit c
    then add_octal_rule_to_permchain (c ∷ cs) pc
    else add_chmod_rule_to_permchain (c ∷ cs) pc

-- `start = ++end` at a delimiter.
unfoldable pub skip_delimiter : Bytes → Bytes
skip_delimiter [] = []
skip_delimiter (c ∷ cs) = cs

-- The outer loop, on fuel: each round takes a character at least.
unfoldable pub rules_loop : ℕ → Bytes → Permchain → Option Permchain
unfolding until_delimiter add_rule skip_delimiter
rules_loop zero end pc = none
rules_loop (suc fuel) [] pc = some pc
rules_loop (suc fuel) (c ∷ cs) pc =
    let (token, rest) = until_delimiter (c ∷ cs) in
    add_rule token pc >>= λ pc'. rules_loop fuel (skip_delimiter rest) pc'

unfoldable pub add_chmod_rules_to_permchain : Bytes → Permchain → Option Permchain
unfolding rules_loop permchain_create permchain_cat
add_chmod_rules_to_permchain rule pc = do
  newpc ← rules_loop (length rule + 1) rule permchain_create
  some (permchain_cat pc newpc)
