-- ===== src/Tests/Rules.antt =====
-- A specification of permissions, parsed and applied.
use bindfs.Base.{◌<◌, ◌≡◌, refl, [], ◌∷◌, some, arith, All}
use bindfs.Base.Text.{codes}
use bindfs.Base.Bits.{complement}
use bindfs.Mode.{Class, Kind, perms, is_dir}
use bindfs.Permchain.Rules.{Node, Permchain, remove, add, exec, write, new_node}
use bindfs.Permchain.Parse.{add_chmod_rules_to_permchain}
use bindfs.Permchain.Parse.Nodes.{IsGoodNode}
use bindfs.Permchain.Parse.Chains.{add_chmod_rules-good}
use bindfs.Permchain.Spec.{chain_meaning}
use bindfs.Permchain.Apply.{permchain_apply, operand_bits}
use bindfs.Permchain.Apply.Meaning.{IsValidNode, IsValidChain, perms-permchain_apply}

-- What "og-x:u+w" stands for.
abbrev chain : Permchain
chain =
    new_node
    ∷ record { op = remove; flags = 3; mask = 0o077; as_operands = exec ∷ []; as_octal = 0 }
    ∷ record { op = add; flags = 3; mask = 0o700; as_operands = write ∷ []; as_octal = 0 }
    ∷ []

parsed : add_chmod_rules_to_permchain (codes "og-x:u+w") [] ≡ some chain
unfolding add_chmod_rules_to_permchain
parsed = refl

applied : permchain_apply chain 0o100555 ≡ 0o100744
unfolding permchain_apply complement operand_bits
applied = refl

chain-IsValid : IsValidChain chain
chain-IsValid = (
  rule (omega arith) (omega arith),
  (rule (omega arith) (omega arith), (rule (omega arith) (omega arith), tt)),
)
  where
    rule : {n : Node} → n.mask < 512 → n.as_octal < 512 → IsValidNode n
    rule p q = record { mask_small = p; octal_small = q }

perms-permchain_apply_example :
    perms (permchain_apply chain 0o100555) Class.group Kind.exec
    ≡ chain_meaning (is_dir 0o100555) (perms 0o100555) chain (perms 0o100555) Class.group Kind.exec
perms-permchain_apply_example =
    perms-permchain_apply chain 0o100555 Class.group Kind.exec chain-IsValid

add_chmod_rules-good_example : All IsGoodNode chain
add_chmod_rules-good_example = add_chmod_rules-good (codes "og-x:u+w") [] tt parsed
