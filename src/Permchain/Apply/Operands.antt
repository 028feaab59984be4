-- ===== src/Permchain/Apply/Operands.antt =====
-- `operand_bits` and `modebits_to_all`: the bits of one letter are the permissions that it grants.
use bindfs.Base.{ℕ, zero, suc, ◌/◌, ◌<◌, ◌≡◌, refl, ap, ◌∙◌, Bool, true, false, not, ◌&&◌, ◌||◌}
use bindfs.Base.{bit_and, bit_or, ◌==◌, arith, Bool-cases, inl, inr, List, [], ◌∷◌}
use bindfs.Base.Bits.{bit, bit-bit_and, bit-bit_or, bit-zero, bit_and-lt, all_below, all_below-true}
use bindfs.Base.Bits.{bit_and-eq_zero, bit_and-ne_zero}
use bindfs.Mode.{Class, user, group, other, Kind, read, write, exec, index, perms, is_dir}
use bindfs.Permchain.Rules.{Operand}
use bindfs.Permchain.Apply.{modebits_to_all, operand_bits, operands_mode}
use bindfs.Permchain.Spec.{grants, any_grants, any_exec, is_read, is_write, is_exec}

abbrev kind_index : Kind → ℕ
kind_index read = 2
kind_index write = 1
kind_index exec = 0

abbrev same : Bool → Bool → Bool
same true b = b
same false b = not b

same→eq : (a b : Bool) → same a b ≡ true → a ≡ b
same→eq true b h = ground arith
same→eq false b h = ground arith

-- Every permission in turn, to check a table by evaluation.
all_kinds : (Kind → Bool) → Bool
all_kinds f = f read && (f write && f exec)

all_perms : (Class → Kind → Bool) → Bool
unfolding all_kinds
all_perms f = all_kinds (f user) && (all_kinds (f group) && all_kinds (f other))

all_kinds_sound : (f : Kind → Bool) (k : Kind) → all_kinds f ≡ true → f k ≡ true
unfolding all_kinds
all_kinds_sound f read h = ground arith
all_kinds_sound f write h = ground arith
all_kinds_sound f exec h = ground arith

all_perms_sound :
    (f : Class → Kind → Bool) (c : Class) (k : Kind) → all_perms f ≡ true → f c k ≡ true
unfolding all_perms
all_perms_sound f user k h = all_kinds_sound (f user) k (ground arith)
all_perms_sound f group k h = all_kinds_sound (f group) k (ground arith)
all_perms_sound f other k h = all_kinds_sound (f other) k (ground arith)

modebits_table :
    all_perms
      (λ c k. all_below 8 (λ p. same (bit (modebits_to_all p) (index c k)) (bit p (kind_index k))))
    ≡ true
unfolding all_perms all_below modebits_to_all
modebits_table = refl

perms-modebits_to_all :
    (p : ℕ) (c : Class) (k : Kind) → p < 8 → perms (modebits_to_all p) c k ≡ bit p (kind_index k)
perms-modebits_to_all p c k h = same→eq _ _ (
    all_below-true 8 (λ p. same (bit (modebits_to_all p) (index c k)) (bit p (kind_index k))) p
      (all_perms_sound
        (λ c k.
          all_below 8 (λ p. same (bit (modebits_to_all p) (index c k)) (bit p (kind_index k))))
        c k modebits_table)
      h)

-- The three bits of a class, moved to the lowest places.
user_bits : (m : ℕ) (k : Kind) → bit (bit_and m 0o700 / 64) (kind_index k) ≡ perms m user k
user_bits m k = ap (λ (t : ℕ). bit t (kind_index k)) (halves (bit_and m 0o700)) ∙ at k
  where
    halves : (n : ℕ) → n / 64 ≡ n / 2 / 2 / 2 / 2 / 2 / 2
    halves n = omega arith

    at : (k : Kind) → bit (bit_and m 0o700 / 2 / 2 / 2 / 2 / 2 / 2) (kind_index k) ≡ perms m user k
    at read = ground (arith, bit-bit_and m 0o700 8)
    at write = ground (arith, bit-bit_and m 0o700 7)
    at exec = ground (arith, bit-bit_and m 0o700 6)

group_bits : (m : ℕ) (k : Kind) → bit (bit_and m 0o070 / 8) (kind_index k) ≡ perms m group k
group_bits m k = ap (λ (t : ℕ). bit t (kind_index k)) (halves (bit_and m 0o070)) ∙ at k
  where
    halves : (n : ℕ) → n / 8 ≡ n / 2 / 2 / 2
    halves n = omega arith

    at : (k : Kind) → bit (bit_and m 0o070 / 2 / 2 / 2) (kind_index k) ≡ perms m group k
    at read = ground (arith, bit-bit_and m 0o070 5)
    at write = ground (arith, bit-bit_and m 0o070 4)
    at exec = ground (arith, bit-bit_and m 0o070 3)

other_bits : (m : ℕ) (k : Kind) → bit (bit_and m 0o007) (kind_index k) ≡ perms m other k
other_bits m read = ground (arith, bit-bit_and m 0o007 2)
other_bits m write = ground (arith, bit-bit_and m 0o007 1)
other_bits m exec = ground (arith, bit-bit_and m 0o007 0)

exec_bits : (m : ℕ) → (bit_and m 0o111 == 0) ≡ not (any_exec (perms m))
exec_bits m = elim (Bool-cases (any_exec (perms m))) [
  | inl some_bit ↦
      ground
        (arith, bit_and-ne_zero m 0o111 6, bit_and-ne_zero m 0o111 3, bit_and-ne_zero m 0o111 0)
  | inr no_bit ↦ ground (arith, bit_and-eq_zero 7 m 0o111 (omega arith) (clear no_bit))
]
  where
    clear : any_exec (perms m) ≡ false → (i : ℕ) → i < 7 → (bit m i && bit 0o111 i) ≡ false
    clear h zero p = ground arith
    clear h (suc zero) p = ground arith
    clear h (suc (suc zero)) p = ground arith
    clear h (suc (suc (suc zero))) p = ground arith
    clear h (suc (suc (suc (suc zero)))) p = ground arith
    clear h (suc (suc (suc (suc (suc zero))))) p = ground arith
    clear h (suc (suc (suc (suc (suc (suc zero)))))) p = ground arith
    clear h (suc (suc (suc (suc (suc (suc (suc i))))))) p = absurd (omega arith)

numeral_read : (c : Class) (k : Kind) → perms 0o444 c k ≡ is_read k
unfolding all_perms
numeral_read c k =
    same→eq _ _ (all_perms_sound (λ c k. same (perms 0o444 c k) (is_read k)) c k refl)

numeral_write : (c : Class) (k : Kind) → perms 0o222 c k ≡ is_write k
unfolding all_perms
numeral_write c k =
    same→eq _ _ (all_perms_sound (λ c k. same (perms 0o222 c k) (is_write k)) c k refl)

numeral_exec : (c : Class) (k : Kind) → perms 0o111 c k ≡ is_exec k
unfolding all_perms
numeral_exec c k =
    same→eq _ _ (all_perms_sound (λ c k. same (perms 0o111 c k) (is_exec k)) c k refl)

-- One letter.
perms-operand_bits :
    (m : ℕ) (o : Operand) (c : Class) (k : Kind)
    → perms (operand_bits m o) c k ≡ grants (is_dir m) (perms m) o k
unfolding operand_bits
perms-operand_bits m Operand.read c k = numeral_read c k
perms-operand_bits m Operand.write c k = numeral_write c k
perms-operand_bits m Operand.exec c k = numeral_exec c k
perms-operand_bits m Operand.exec_if_any c k =
    ground (arith, exec_bits m, numeral_exec c k, bit-zero (index c k))
perms-operand_bits m Operand.exec_if_dir c k =
    ground (arith, numeral_exec c k, bit-zero (index c k))
perms-operand_bits m Operand.setid c k = bit-zero (index c k)
perms-operand_bits m Operand.sticky c k = bit-zero (index c k)
perms-operand_bits m Operand.user c k =
    perms-modebits_to_all _ c k (omega (arith, bit_and-lt 9 m 0o700 (omega arith))) ∙ user_bits m k
perms-operand_bits m Operand.group c k =
    perms-modebits_to_all _ c k (omega (arith, bit_and-lt 6 m 0o070 (omega arith))) ∙ group_bits m k
perms-operand_bits m Operand.other c k =
    perms-modebits_to_all _ c k (bit_and-lt 3 m 0o007 (omega arith)) ∙ other_bits m k

-- The loop over the letters.
pub perms-operands_mode :
    (m : ℕ) (os : List Operand) (acc : ℕ) (c : Class) (k : Kind)
    → perms (operands_mode m os acc) c k ≡ (perms acc c k || any_grants (is_dir m) (perms m) os k)
unfolding operands_mode
perms-operands_mode m [] acc c k = ground arith
perms-operands_mode m (o ∷ os) acc c k = ground (
  arith,
  perms-operands_mode m os (bit_or acc (operand_bits m o)) c k,
  bit-bit_or acc (operand_bits m o) (index c k),
  perms-operand_bits m o c k,
)
