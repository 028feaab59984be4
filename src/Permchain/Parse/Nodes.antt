-- ===== src/Permchain/Parse/Nodes.antt =====
-- One rule of a specification: what `add_chmod_rule_to_permchain` builds is a rule over the nine
-- permission bits, and its letters fit the array `as_operands`.
use bindfs.Base.{ℕ, ◌+◌, ◌≤◌, ◌<◌, ◌≡◌, refl, sym, Bool, false, ◌||◌, ◌==◌, arith}
use bindfs.Base.{List, [], ◌∷◌, ◌++◌, some, if◌then◌else◌, length}
use bindfs.Base.Bits.{bit_or-lt}
use bindfs.Base.Text.{Bytes}
use bindfs.Base.Maybe.{>>=-eq-some}
use bindfs.Permchain.Rules.{Operand, read, write, exec, exec_if_any, exec_if_dir, setid}
use bindfs.Permchain.Rules.{sticky, user, group, other, Node}
use bindfs.Permchain.Parse.{Phase, lhs, rhs, lhs_char, operand_rank}
use bindfs.Permchain.Parse.{has_operand, rhs_char, chmod_rule_loop}

abbrev pub Distinct : List Operand → Type 0
Distinct [] = Unit
Distinct (o ∷ os) = (has_operand os o ≡ false) × Distinct os

one_if : Bool → ℕ
one_if b = if b then 1 else 0

-- How many of the ten letters a list has.
letters : List Operand → ℕ
unfolding one_if
letters os =
    one_if (has_operand os read)
    + one_if (has_operand os write)
    + one_if (has_operand os exec)
    + one_if (has_operand os exec_if_any)
    + one_if (has_operand os exec_if_dir)
    + one_if (has_operand os setid)
    + one_if (has_operand os sticky)
    + one_if (has_operand os user)
    + one_if (has_operand os group)
    + one_if (has_operand os other)

one_if-le : (b : Bool) → one_if b ≤ 1
unfolding one_if
one_if-le b = ground arith

letters-le : (os : List Operand) → letters os ≤ 10
unfolding letters
letters-le os = omega (
  arith,
  one_if-le (has_operand os read),
  one_if-le (has_operand os write),
  one_if-le (has_operand os exec),
  one_if-le (has_operand os exec_if_any),
  one_if-le (has_operand os exec_if_dir),
  one_if-le (has_operand os setid),
  one_if-le (has_operand os sticky),
  one_if-le (has_operand os user),
  one_if-le (has_operand os group),
  one_if-le (has_operand os other),
)

letters-cons :
    (o : Operand) (os : List Operand) → has_operand os o ≡ false → letters (o ∷ os) ≡ letters os + 1
unfolding letters has_operand
letters-cons read os h = ground arith
letters-cons write os h = ground arith
letters-cons exec os h = ground arith
letters-cons exec_if_any os h = ground arith
letters-cons exec_if_dir os h = ground arith
letters-cons setid os h = ground arith
letters-cons sticky os h = ground arith
letters-cons user os h = ground arith
letters-cons group os h = ground arith
letters-cons other os h = ground arith

letters-nil : letters [] ≡ 0
unfolding letters has_operand
letters-nil = refl

length-letters : (os : List Operand) → Distinct os → length os ≡ letters os
length-letters [] h = sym letters-nil
length-letters (o ∷ os) (h, hs) = omega (arith, letters-cons o os h, length-letters os hs)

-- Letters that are all different are ten at most.
pub length-Distinct : (os : List Operand) → Distinct os → length os ≤ 10
length-Distinct os h = omega (arith, length-letters os h, letters-le os)

has_operand-append :
    (os : List Operand) (o p : Operand)
    → has_operand (os ++ (o ∷ [])) p ≡ (has_operand os p || (operand_rank o == operand_rank p))
unfolding has_operand
has_operand-append [] o p = ground arith
has_operand-append (q ∷ os) o p = ground (arith, has_operand-append os o p)

Distinct-append :
    (os : List Operand) (o : Operand)
    → Distinct os
    → has_operand os o ≡ false
    → Distinct (os ++ (o ∷ []))
unfolding has_operand
Distinct-append [] o d h = (refl, tt)
Distinct-append (q ∷ os) o (d, ds) h =
    (ground (arith, has_operand-append os o q), Distinct-append os o ds (ground arith))

-- What holds of a node at every round of the loop.
pub record IsGoodNode (n : Node) : Type 0 where
  pub mask_small : n.mask < 512
  pub octal_small : n.as_octal < 512
  pub distinct : Distinct n.as_operands

lhs_char-IsGoodNode :
    (first : Bool) (c : ℕ) (n : Node) {phase : Phase} {n' : Node}
    → IsGoodNode n
    → lhs_char first c n ≡ some (phase, n')
    → IsGoodNode n'
unfolding lhs_char
lhs_char-IsGoodNode first c n v h = ground (
  arith,
  bit_or-lt 9 n.mask 0o700 v.mask_small (omega arith),
  bit_or-lt 9 n.mask 0o070 v.mask_small (omega arith),
  bit_or-lt 9 n.mask 0o007 v.mask_small (omega arith),
)

rhs_char-IsGoodNode :
    (c : ℕ) (n : Node) {n' : Node} → IsGoodNode n → rhs_char c n ≡ some n' → IsGoodNode n'
unfolding rhs_char
rhs_char-IsGoodNode c n v h = ground (
  arith,
  Distinct-append n.as_operands read v.distinct,
  Distinct-append n.as_operands write v.distinct,
  Distinct-append n.as_operands exec v.distinct,
  Distinct-append n.as_operands exec_if_any v.distinct,
  Distinct-append n.as_operands exec_if_dir v.distinct,
  Distinct-append n.as_operands setid v.distinct,
  Distinct-append n.as_operands sticky v.distinct,
  Distinct-append n.as_operands user v.distinct,
  Distinct-append n.as_operands group v.distinct,
  Distinct-append n.as_operands other v.distinct,
)

pub chmod_rule_loop-IsGoodNode :
    (phase : Phase) (first : Bool) (rule : Bytes) (n : Node) {n' : Node}
    → IsGoodNode n
    → chmod_rule_loop phase first rule n ≡ some n'
    → IsGoodNode n'
unfolding chmod_rule_loop
chmod_rule_loop-IsGoodNode phase first [] n v h = ground arith
chmod_rule_loop-IsGoodNode lhs first (c ∷ cs) n v h =
    let ((phase, m), e, k) = >>=-eq-some (lhs_char first c n) _ h in
    chmod_rule_loop-IsGoodNode phase false cs m (lhs_char-IsGoodNode first c n v e) k
chmod_rule_loop-IsGoodNode rhs first (c ∷ cs) n v h =
    let (m, e, k) = >>=-eq-some (rhs_char c n) _ h in
    chmod_rule_loop-IsGoodNode rhs false cs m (rhs_char-IsGoodNode c n v e) k
