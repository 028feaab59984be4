-- ===== src/Permchain/Spec.antt =====
-- What a chain of permission rules means, with no bit operations: permissions are a function of the
-- class and the kind, and a rule says which of them it grants.
use bindfs.Base.{List, [], ◌∷◌, Bool, true, false, not, ◌&&◌, ◌||◌, if◌then◌else◌}
use bindfs.Base.Bits.{bit}
use bindfs.Mode.{Class, Kind, perms}
use bindfs.Permchain.Rules.{Op, nop, assign, add, remove, octal, Operand, Node, Permchain}

abbrev pub Perms : Type 0
Perms = Class → Kind → Bool

abbrev pub any_exec : Perms → Bool
any_exec p = p Class.user Kind.exec || (p Class.group Kind.exec || p Class.other Kind.exec)

abbrev pub is_read : Kind → Bool
is_read Kind.read = true
is_read _ = false

abbrev pub is_write : Kind → Bool
is_write Kind.write = true
is_write _ = false

abbrev pub is_exec : Kind → Bool
is_exec Kind.exec = true
is_exec _ = false

-- Whether a letter grants a kind, to every class alike. `p` are the permissions before the chain.
abbrev pub grants : Bool → Perms → Operand → Kind → Bool
grants dir p Operand.read k = is_read k
grants dir p Operand.write k = is_write k
grants dir p Operand.exec k = is_exec k
grants dir p Operand.exec_if_any k = is_exec k && (dir || any_exec p)
grants dir p Operand.exec_if_dir k = is_exec k && dir
grants dir p Operand.setid k = false
grants dir p Operand.sticky k = false
grants dir p Operand.user k = p Class.user k
grants dir p Operand.group k = p Class.group k
grants dir p Operand.other k = p Class.other k

abbrev pub any_grants : Bool → Perms → List Operand → Kind → Bool
any_grants dir p [] k = false
any_grants dir p (o ∷ os) k = grants dir p o k || any_grants dir p os k

-- Whether a rule is for directories, or for files.
abbrev pub applies_to : Node → Bool → Bool
applies_to n dir = if dir then bit n.flags 1 else bit n.flags 0

abbrev pub change : Op → Bool → Bool → Bool → Bool → Bool
change nop chosen granted digit old = old
change assign chosen granted digit old = if chosen then granted else old
change add chosen granted digit old = old || (chosen && granted)
change remove chosen granted digit old = old && not (chosen && granted)
change octal chosen granted digit old = digit

abbrev pub rule_meaning : Bool → Perms → Node → Perms → Perms
rule_meaning dir p n q c k =
    if applies_to n dir
    then change n.op (perms n.mask c k) (any_grants dir p n.as_operands k) (perms n.as_octal c k)
        (q c k)
    else q c k

abbrev pub chain_meaning : Bool → Perms → Permchain → Perms → Perms
chain_meaning dir p [] q = q
chain_meaning dir p (n ∷ pc) q = chain_meaning dir p pc (rule_meaning dir p n q)
