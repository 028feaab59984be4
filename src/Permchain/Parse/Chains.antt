-- ===== src/Permchain/Parse/Chains.antt =====
-- Whole specifications: `add_chmod_rules_to_permchain` either fails or hangs valid rules behind the
-- chain that it is given.
use bindfs.Base.{ℕ, zero, suc, ◌+◌, ◌≡◌, refl, ap, true, arith}
use bindfs.Base.{[], ◌∷◌, ◌++◌, some, length, All, All-append, Bool-cases, inl, inr}
use native.Mathlib.Decide.{dec_lt}
use bindfs.Base.Text.{Bytes}
use bindfs.Base.Maybe.{>>=-eq-some}
use bindfs.Permchain.Rules.{octal, Node, Permchain, new_node, permchain_create, permchain_cat}
use bindfs.Permchain.Parse.{lhs, chmod_rule_loop, default_flags, add_chmod_rule_to_permchain}
use bindfs.Permchain.Parse.{strtol_octal, add_octal_rule_to_permchain, until_delimiter, add_rule}
use bindfs.Permchain.Parse.{skip_delimiter, rules_loop, is_digit, add_chmod_rules_to_permchain}
use bindfs.Permchain.Parse.Nodes.{IsGoodNode, chmod_rule_loop-IsGoodNode}

pub permchain_cat-append : (left right : Permchain) → permchain_cat left right ≡ left ++ right
unfolding permchain_cat
permchain_cat-append [] right = refl
permchain_cat-append (n ∷ left) right =
    ap (λ (r : Permchain). n ∷ r) (permchain_cat-append left right)

new_node-IsGoodNode : (f : ℕ) → IsGoodNode (record new_node { flags = f })
new_node-IsGoodNode f = record {
  mask_small = omega arith;
  octal_small = omega arith;
  distinct = tt;
}

pub permchain_create-good : All IsGoodNode permchain_create
unfolding permchain_create
permchain_create-good = (new_node-IsGoodNode 3, tt)

default_flags-IsGoodNode : (n : Node) → IsGoodNode n → IsGoodNode (default_flags n)
unfolding default_flags
default_flags-IsGoodNode n v = ground arith

snoc-good :
    (pc : Permchain) (n : Node)
    → All IsGoodNode pc
    → IsGoodNode n
    → All IsGoodNode (permchain_cat pc (n ∷ []))
snoc-good pc n h v =
    rw (permchain_cat-append pc (n ∷ [])) (All-append IsGoodNode pc (n ∷ []) h (v, tt))

add_chmod_rule-good :
    (rule : Bytes) (pc : Permchain) {pc' : Permchain}
    → All IsGoodNode pc
    → add_chmod_rule_to_permchain rule pc ≡ some pc'
    → All IsGoodNode pc'
unfolding add_chmod_rule_to_permchain
add_chmod_rule-good rule pc v h =
    let (n, e, k) =
      >>=-eq-some (chmod_rule_loop lhs true rule (record new_node { flags = 0 })) _ h in
    ground (
      arith,
      snoc-good pc (default_flags n) v (
          default_flags-IsGoodNode n
            (chmod_rule_loop-IsGoodNode lhs true rule _ (new_node-IsGoodNode 0) e)),
    )

add_octal_rule-good :
    (rule : Bytes) (pc : Permchain) {pc' : Permchain}
    → All IsGoodNode pc
    → add_octal_rule_to_permchain rule pc ≡ some pc'
    → All IsGoodNode pc'
unfolding add_octal_rule_to_permchain
add_octal_rule-good rule pc v h = elim (dec_lt 511 (strtol_octal rule 0)) [
  | yes big ↦ ground arith
  | no small ↦ ground (
    arith,
    snoc-good pc (record new_node { mask = 0o777; op = octal; as_octal = strtol_octal rule 0 }) v
        (record { mask_small = omega arith; octal_small = omega arith; distinct = tt }),
  )
]

add_rule-good :
    (rule : Bytes) (pc : Permchain) {pc' : Permchain}
    → All IsGoodNode pc
    → add_rule rule pc ≡ some pc'
    → All IsGoodNode pc'
unfolding add_rule
add_rule-good [] pc v h = cc
add_rule-good (c ∷ cs) pc v h = elim (Bool-cases (is_digit c)) [
  | inl e ↦ add_octal_rule-good (c ∷ cs) pc v (rw e at h)
  | inr e ↦ add_chmod_rule-good (c ∷ cs) pc v (rw e at h)
]

rules_loop-good :
    (fuel : ℕ) (rule : Bytes) (pc : Permchain) {pc' : Permchain}
    → All IsGoodNode pc
    → rules_loop fuel rule pc ≡ some pc'
    → All IsGoodNode pc'
unfolding rules_loop
rules_loop-good zero rule pc v h = cc
rules_loop-good (suc fuel) [] pc v h = ground arith
rules_loop-good (suc fuel) (c ∷ cs) pc v h =
    let (token, rest) = until_delimiter (c ∷ cs) in
    let (m, e, k) = >>=-eq-some (add_rule token pc) _ h in
    rules_loop-good fuel (skip_delimiter rest) m (add_rule-good token pc v e) k

-- `add_chmod_rules_to_permchain` keeps a chain of valid rules one: every mask and octal value lies
-- within the nine permission bits, and the letters of a rule are all different.
pub add_chmod_rules-good :
    (rule : Bytes) (pc : Permchain) {pc' : Permchain}
    → All IsGoodNode pc
    → add_chmod_rules_to_permchain rule pc ≡ some pc'
    → All IsGoodNode pc'
unfolding add_chmod_rules_to_permchain permchain_create
add_chmod_rules-good rule pc v h =
    let (newpc, e, k) = >>=-eq-some (rules_loop (length rule + 1) rule permchain_create) _ h in
    ground (
      arith,
      permchain_cat-append pc newpc,
      All-append IsGoodNode pc newpc v
          (rules_loop-good (length rule + 1) rule permchain_create (new_node-IsGoodNode 3, tt) e),
    )
