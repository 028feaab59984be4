-- ===== src/Permchain/Apply.antt =====
-- `permchain_apply` of src/permchain.c.
pub mod Operands
pub mod Meaning
use bindfs.Base.{ℕ, ◌+◌, ◌*◌, ◌/◌, ◌%◌, ◌^◌, List, [], ◌∷◌, Bool, true, false, not, ◌&&◌, ◌||◌}
use bindfs.Base.{bit_and, bit_or, ◌==◌, if◌then◌else◌}
use bindfs.Base.Bits.{complement}
use bindfs.Mode.{is_dir}
use bindfs.Permchain.Rules.{Op, nop, assign, add, remove, octal, Operand, read, write, exec}
use bindfs.Permchain.Rules.{exec_if_any, exec_if_dir, setid, sticky, user, group, other}
use bindfs.Permchain.Rules.{Node, Permchain, pc_apply_files, pc_apply_dirs}

-- e.g. 5 -> 0555. The arguments are below 8, so that no shift leaves the word.
unfoldable pub modebits_to_all : ℕ → ℕ
modebits_to_all perms = bit_or (bit_or perms (perms * 8)) (perms * 64)

-- What one letter adds to `mode`.
unfoldable pub operand_bits : ℕ → Operand → ℕ
unfolding modebits_to_all
operand_bits original read = 0o444
operand_bits original write = 0o222
operand_bits original exec = 0o111
operand_bits original exec_if_any =
    if is_dir original || not (bit_and original 0o111 == 0) then 0o111 else 0
operand_bits original exec_if_dir = if is_dir original then 0o111 else 0
operand_bits original setid = 0
operand_bits original sticky = 0
operand_bits original user = modebits_to_all (bit_and original 0o700 / 64)
operand_bits original group = modebits_to_all (bit_and original 0o070 / 8)
operand_bits original other = modebits_to_all (bit_and original 0o007)

-- The loop over `as_operands`.
unfoldable pub operands_mode : ℕ → List Operand → ℕ → ℕ
operands_mode original [] mode = mode
operands_mode original (c ∷ cs) mode =
    operands_mode original cs (bit_or mode (operand_bits original c))

-- Whether the flags leave the node out for a target of this mode.
unfoldable pub skipped : Node → ℕ → Bool
skipped n tgtmode =
    (is_dir tgtmode && (bit_and n.flags pc_apply_dirs == 0))
    || (not (is_dir tgtmode) && (bit_and n.flags pc_apply_files == 0))

-- The second switch on `op`. `mode` is the operands' mode under the mask.
unfoldable pub apply_op : Op → Node → ℕ → ℕ → ℕ
apply_op nop n mode tgtmode = tgtmode
apply_op assign n mode tgtmode = bit_or (bit_and tgtmode (complement n.mask)) mode
apply_op add n mode tgtmode = bit_or tgtmode mode
apply_op remove n mode tgtmode = bit_and tgtmode (bit_or (complement 0o777) (complement mode))
apply_op octal n mode tgtmode = bit_or (bit_and tgtmode (complement 0o777)) n.as_octal

-- One round of the loop. An octal node does not read `mode`.
unfoldable pub apply_node : ℕ → Node → ℕ → ℕ
unfolding skipped apply_op operands_mode
apply_node original n tgtmode =
    if skipped n tgtmode
    then tgtmode
    else apply_op n.op n (bit_and (operands_mode original n.as_operands 0) n.mask) tgtmode

unfoldable pub apply_loop : ℕ → Permchain → ℕ → ℕ
unfolding apply_node
apply_loop original [] tgtmode = tgtmode
apply_loop original (n ∷ pc) tgtmode = apply_loop original pc (apply_node original n tgtmode)

unfoldable pub permchain_apply : Permchain → ℕ → ℕ
unfolding apply_loop
permchain_apply pc tgtmode = apply_loop tgtmode pc tgtmode
