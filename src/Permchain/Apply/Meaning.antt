-- ===== src/Permchain/Apply/Meaning.antt =====
-- `permchain_apply` gives the permissions that the chain means, and leaves the rest of a mode alone.
use bindfs.Base.{ℕ, zero, suc, ◌≤◌, ◌<◌, ◌≡◌, refl, ap, ◌∙◌, Bool, true, false, not, ◌&&◌}
use bindfs.Base.{bit_and, bit_or, ◌==◌, arith, Bool-cases, inl, inr, [], ◌∷◌, All}
use bindfs.Base.Bits.{bit, complement, bit-bit_and, bit-bit_or, bit-complement, bit-zero, bit-of_lt}
use bindfs.Base.Bits.{bit_and-eq_zero, bit_and-ne_zero}
use bindfs.Mode.{Class, user, group, other, Kind, read, write, exec, index, perms, is_dir}
use bindfs.Mode.{file_type, file_type_of_bits}
use bindfs.Permchain.Rules.{Op, nop, assign, add, remove, octal, Node, Permchain}
use bindfs.Permchain.Rules.{pc_apply_files, pc_apply_dirs}
use bindfs.Permchain.Apply.{
  operands_mode, skipped, apply_op, apply_node, apply_loop, permchain_apply,
}
use bindfs.Permchain.Apply.Operands.{perms-operands_mode}
use bindfs.Permchain.Spec.{Perms, applies_to, change, rule_meaning, chain_meaning}

-- A rule speaks of the nine permission bits alone.
pub record IsValidNode (n : Node) : Type 0 where
  pub mask_small : n.mask < 512
  pub octal_small : n.as_octal < 512

abbrev pub IsValidChain : Permchain → Type 0
IsValidChain = All IsValidNode

pub index_small : (c : Class) (k : Kind) → index c k < 9
index_small user read = omega arith
index_small user write = omega arith
index_small user exec = omega arith
index_small group read = omega arith
index_small group write = omega arith
index_small group exec = omega arith
index_small other read = omega arith
index_small other write = omega arith
index_small other exec = omega arith

all_nine : (i : ℕ) → i < 9 → bit 0o777 i ≡ true
all_nine zero p = refl
all_nine (suc zero) p = refl
all_nine (suc (suc zero)) p = refl
all_nine (suc (suc (suc zero))) p = refl
all_nine (suc (suc (suc (suc zero)))) p = refl
all_nine (suc (suc (suc (suc (suc zero))))) p = refl
all_nine (suc (suc (suc (suc (suc (suc zero)))))) p = refl
all_nine (suc (suc (suc (suc (suc (suc (suc zero))))))) p = refl
all_nine (suc (suc (suc (suc (suc (suc (suc (suc zero)))))))) p = refl
all_nine (suc (suc (suc (suc (suc (suc (suc (suc (suc i))))))))) p = absurd (omega arith)

flag_files : (f : ℕ) → (bit_and f pc_apply_files == 0) ≡ not (bit f 0)
flag_files f = elim (Bool-cases (bit f 0)) [
  | inl set ↦ ground (arith, bit_and-ne_zero f 1 0)
  | inr clear ↦ ground (arith, bit_and-eq_zero 1 f 1 (omega arith) (none_set clear))
]
  where
    none_set : bit f 0 ≡ false → (i : ℕ) → i < 1 → (bit f i && bit 1 i) ≡ false
    none_set h zero p = ground arith
    none_set h (suc i) p = absurd (omega arith)

flag_dirs : (f : ℕ) → (bit_and f pc_apply_dirs == 0) ≡ not (bit f 1)
flag_dirs f = elim (Bool-cases (bit f 1)) [
  | inl set ↦ ground (arith, bit_and-ne_zero f 2 1)
  | inr clear ↦ ground (arith, bit_and-eq_zero 2 f 2 (omega arith) (none_set clear))
]
  where
    none_set : bit f 1 ≡ false → (i : ℕ) → i < 2 → (bit f i && bit 2 i) ≡ false
    none_set h zero p = ground arith
    none_set h (suc zero) p = ground arith
    none_set h (suc (suc i)) p = absurd (omega arith)

skipped-applies_to : (n : Node) (t : ℕ) → skipped n t ≡ not (applies_to n (is_dir t))
unfolding skipped
skipped-applies_to n t = ground (arith, flag_files n.flags, flag_dirs n.flags)

-- One bit of the second switch.
perms-apply_op :
    (op : Op) (n : Node) (granted t i : ℕ)
    → i < 9
    → bit (apply_op op n (bit_and granted n.mask) t) i
      ≡ change op (bit n.mask i) (bit granted i) (bit n.as_octal i) (bit t i)
unfolding apply_op
perms-apply_op nop n g t i h = refl
perms-apply_op assign n g t i h = ground (
  arith,
  bit-bit_or (bit_and t (complement n.mask)) (bit_and g n.mask) i,
  bit-bit_and t (complement n.mask) i,
  bit-complement n.mask i (omega arith),
  bit-bit_and g n.mask i,
)
perms-apply_op add n g t i h =
    ground (arith, bit-bit_or t (bit_and g n.mask) i, bit-bit_and g n.mask i)
perms-apply_op remove n g t i h = ground (
  arith,
  bit-bit_and t (bit_or (complement 0o777) (complement (bit_and g n.mask))) i,
  bit-bit_or (complement 0o777) (complement (bit_and g n.mask)) i,
  bit-complement 0o777 i (omega arith),
  all_nine i h,
  bit-complement (bit_and g n.mask) i (omega arith),
  bit-bit_and g n.mask i,
)
perms-apply_op octal n g t i h = ground (
  arith,
  bit-bit_or (bit_and t (complement 0o777)) n.as_octal i,
  bit-bit_and t (complement 0o777) i,
  bit-complement 0o777 i (omega arith),
  all_nine i h,
)

rest-apply_op :
    (op : Op) (n : Node) (g t i : ℕ)
    → IsValidNode n
    → 9 ≤ i
    → i < 32
    → bit (apply_op op n (bit_and g n.mask) t) i ≡ bit t i
unfolding apply_op
rest-apply_op nop n g t i v lo h = refl
rest-apply_op assign n g t i v lo h = ground (
  arith,
  bit-bit_or (bit_and t (complement n.mask)) (bit_and g n.mask) i,
  bit-bit_and t (complement n.mask) i,
  bit-complement n.mask i h,
  bit-bit_and g n.mask i,
  bit-of_lt 9 n.mask i v.mask_small lo,
)
rest-apply_op add n g t i v lo h = ground (
  arith,
  bit-bit_or t (bit_and g n.mask) i,
  bit-bit_and g n.mask i,
  bit-of_lt 9 n.mask i v.mask_small lo,
)
rest-apply_op remove n g t i v lo h = ground (
  arith,
  bit-bit_and t (bit_or (complement 0o777) (complement (bit_and g n.mask))) i,
  bit-bit_or (complement 0o777) (complement (bit_and g n.mask)) i,
  bit-complement 0o777 i h,
  bit-of_lt 9 0o777 i (omega arith) lo,
)
rest-apply_op octal n g t i v lo h = ground (
  arith,
  bit-bit_or (bit_and t (complement 0o777)) n.as_octal i,
  bit-bit_and t (complement 0o777) i,
  bit-complement 0o777 i h,
  bit-of_lt 9 0o777 i (omega arith) lo,
  bit-of_lt 9 n.as_octal i v.octal_small lo,
)

-- One round of the loop.
perms-apply_node :
    (m : ℕ) (n : Node) (t : ℕ) (c : Class) (k : Kind)
    → is_dir t ≡ is_dir m
    → perms (apply_node m n t) c k ≡ rule_meaning (is_dir m) (perms m) n (perms t) c k
unfolding apply_node
perms-apply_node m n t c k same = ground (
  arith,
  skipped-applies_to n t,
  perms-apply_op n.op n (operands_mode m n.as_operands 0) t (index c k) (index_small c k),
  perms-operands_mode m n.as_operands 0 c k,
  bit-zero (index c k),
)

rest-apply_node :
    (m : ℕ) (n : Node) (t i : ℕ)
    → IsValidNode n
    → 9 ≤ i
    → i < 32
    → bit (apply_node m n t) i ≡ bit t i
unfolding apply_node
rest-apply_node m n t i v lo h =
    ground (arith, rest-apply_op n.op n (operands_mode m n.as_operands 0) t i v lo h)

file_type-apply_node :
    (m : ℕ) (n : Node) (t : ℕ) → IsValidNode n → file_type (apply_node m n t) ≡ file_type t
file_type-apply_node m n t v =
    file_type_of_bits (apply_node m n t) t (λ i lo h. rest-apply_node m n t i v lo h)

chain_meaning-ext :
    (dir : Bool) (p : Perms) (pc : Permchain) (q r : Perms)
    → ((c : Class) (k : Kind) → q c k ≡ r c k)
    → (c : Class) (k : Kind) → chain_meaning dir p pc q c k ≡ chain_meaning dir p pc r c k
chain_meaning-ext dir p pc q r h c k =
    ap (λ (f : Perms). chain_meaning dir p pc f c k) (λ i c k. h c k i)

perms-apply_loop :
    (m : ℕ) (pc : Permchain) (t : ℕ) (c : Class) (k : Kind)
    → IsValidChain pc
    → file_type t ≡ file_type m
    → perms (apply_loop m pc t) c k ≡ chain_meaning (is_dir m) (perms m) pc (perms t) c k
unfolding apply_loop
perms-apply_loop m [] t c k v same = refl
perms-apply_loop m (n ∷ pc) t c k (v, vs) same =
    perms-apply_loop m pc (apply_node m n t) c k vs (file_type-apply_node m n t v ∙ same)
    ∙ chain_meaning-ext (is_dir m) (perms m) pc (perms (apply_node m n t))
        (rule_meaning (is_dir m) (perms m) n (perms t))
        (λ c k. perms-apply_node m n t c k (ap (λ (f : ℕ). f == 0o040000) same)) c k

rest-apply_loop :
    (m : ℕ) (pc : Permchain) (t i : ℕ)
    → IsValidChain pc
    → 9 ≤ i
    → i < 32
    → bit (apply_loop m pc t) i ≡ bit t i
unfolding apply_loop
rest-apply_loop m [] t i v lo h = refl
rest-apply_loop m (n ∷ pc) t i (v, vs) lo h =
    rest-apply_loop m pc (apply_node m n t) i vs lo h ∙ rest-apply_node m n t i v lo h

-- `permchain_apply` refines the meaning of the chain: each of the nine permissions of the result is
-- what the rules, read in order, make of the permissions of the given mode, for every chain of
-- valid rules.
pub perms-permchain_apply :
    (pc : Permchain) (m : ℕ) (c : Class) (k : Kind)
    → IsValidChain pc
    → perms (permchain_apply pc m) c k ≡ chain_meaning (is_dir m) (perms m) pc (perms m) c k
unfolding permchain_apply
perms-permchain_apply pc m c k v = perms-apply_loop m pc m c k v refl

-- `permchain_apply` leaves every bit above the permissions alone, up to the width of a mode: the
-- file type and the setuid, setgid and sticky bits.
rest-permchain_apply :
    (pc : Permchain) (m i : ℕ)
    → IsValidChain pc
    → 9 ≤ i
    → i < 32
    → bit (permchain_apply pc m) i ≡ bit m i
unfolding permchain_apply
rest-permchain_apply pc m i v lo h = rest-apply_loop m pc m i v lo h

pub file_type-permchain_apply :
    (pc : Permchain) (m : ℕ) → IsValidChain pc → file_type (permchain_apply pc m) ≡ file_type m
file_type-permchain_apply pc m v =
    file_type_of_bits (permchain_apply pc m) m (λ i lo h. rest-permchain_apply pc m i v lo h)
