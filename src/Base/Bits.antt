-- ===== src/Base/Bits.antt =====
-- The bit operations of C at variables: `&`, `|`, `^`, `~` on a `mode_t`, read one bit at a time.
use Prim.Native.Nat.{ℕ, zero, suc, ◌+◌, ◌-◌, ◌*◌, ◌/◌, ◌%◌, ◌^◌, ◌≤◌, ◌<◌, min, max}
use Prim.Native.Nat.{bit_and, bit_or, bit_xor, digits, differ}
use Prim.Native.Nat.{bit_and-bitwise, bit_or-bitwise, bit_xor-bitwise}
use mathlib.Core.Path.{◌≡◌, refl, ap}
use mathlib.Core.Bool.{Bool, true, false, not, ◌&&◌, ◌||◌, xor}
use native.Mathlib.Omega.{arith}
use native.Mathlib.Nat.{pow-suc, one-le-pow}
use bindfs.Base.Tests.{◌==◌}

-- Bit `i` of a number, the lowest first.
abbrev pub bit : ℕ → ℕ → Bool
bit n zero = (n % 2) == 1
bit n (suc i) = bit (n / 2) i

-- The native operations are one recursion on binary digits, whose fuel does not matter once it is
-- enough for the first argument.
module _ (end : ℕ → ℕ) (join : ℕ → ℕ → ℕ) where
  same_digits :
      {low high : ℕ} (x y : ℕ)
      → x ≤ high
      → x ≤ low
      → digits end join high x y ≡ digits end join low x y
  same_digits {low = zero} {high = zero} zero y h l = refl
  same_digits {low = suc low} {high = zero} zero y h l = refl
  same_digits {low = zero} {high = suc high} zero y h l = refl
  same_digits {low = suc low} {high = suc high} zero y h l = refl
  same_digits {high = zero} (suc x) y h l = absurd (omega arith)
  same_digits {low = zero} {high = suc high} (suc x) y h l = absurd (omega arith)
  same_digits {low = suc low} {high = suc high} (suc x) y h l =
      omega (
        arith,
        same_digits {low = low} {high = high} (suc x / 2) (y / 2) (omega arith) (omega arith),
      )

-- The lowest digit of a result and the rest of it.
bit_and-split : (x y : ℕ) → bit_and x y ≡ min (x % 2) (y % 2) + 2 * bit_and (x / 2) (y / 2)
bit_and-split zero y = omega (arith, bit_and-bitwise 0 (y / 2), bit_and-bitwise 0 y)
bit_and-split (suc x) y =
    let rest =
      same_digits (λ _. 0) min {low = suc x / 2} {high = x} (suc x / 2) (y / 2) (omega arith)
        (omega arith) in
    omega (arith, bit_and-bitwise (suc x / 2) (y / 2), bit_and-bitwise (suc x) y, rest)

bit_or-split : (x y : ℕ) → bit_or x y ≡ max (x % 2) (y % 2) + 2 * bit_or (x / 2) (y / 2)
bit_or-split zero y = omega (arith, bit_or-bitwise 0 (y / 2), bit_or-bitwise 0 y)
bit_or-split (suc x) y =
    let rest =
      same_digits (λ y. y) max {low = suc x / 2} {high = x} (suc x / 2) (y / 2) (omega arith)
        (omega arith) in
    omega (arith, bit_or-bitwise (suc x / 2) (y / 2), bit_or-bitwise (suc x) y, rest)

differ-zero : (y : ℕ) → differ 0 y ≡ y
differ-zero y = refl

bit_xor-split : (x y : ℕ) → bit_xor x y ≡ differ (x % 2) (y % 2) + 2 * bit_xor (x / 2) (y / 2)
bit_xor-split zero y =
    omega (arith, bit_xor-bitwise 0 (y / 2), bit_xor-bitwise 0 y, differ-zero (y % 2))
bit_xor-split (suc x) y =
    let rest =
      same_digits (λ y. y) differ {low = suc x / 2} {high = x} (suc x / 2) (y / 2) (omega arith)
        (omega arith) in
    omega (arith, bit_xor-bitwise (suc x / 2) (y / 2), bit_xor-bitwise (suc x) y, rest)

bit_and-half : (a b : ℕ) → bit_and a b / 2 ≡ bit_and (a / 2) (b / 2)
bit_and-half a b = omega (arith, bit_and-split a b)

bit_or-half : (a b : ℕ) → bit_or a b / 2 ≡ bit_or (a / 2) (b / 2)
bit_or-half a b = omega (arith, bit_or-split a b)

differ-le : (a b : ℕ) → a < 2 → b < 2 → differ a b < 2
differ-le zero b p q = q
differ-le (suc zero) zero p q = omega arith
differ-le (suc zero) (suc b) p q = omega arith
differ-le (suc (suc a)) b p q = absurd (omega arith)

bit_xor-half : (a b : ℕ) → bit_xor a b / 2 ≡ bit_xor (a / 2) (b / 2)
bit_xor-half a b =
    omega (arith, bit_xor-split a b, differ-le (a % 2) (b % 2) (omega arith) (omega arith))

pub bit-bit_and : (a b i : ℕ) → bit (bit_and a b) i ≡ (bit a i && bit b i)
bit-bit_and a b zero = ground (arith, bit_and-split a b)
bit-bit_and a b (suc i) = rw bit_and-half (bit-bit_and (a / 2) (b / 2) i)

pub bit-bit_or : (a b i : ℕ) → bit (bit_or a b) i ≡ (bit a i || bit b i)
bit-bit_or a b zero = ground (arith, bit_or-split a b)
bit-bit_or a b (suc i) = rw bit_or-half (bit-bit_or (a / 2) (b / 2) i)

differ_digit : (a b : ℕ) → a < 2 → b < 2 → (differ a b == 1) ≡ xor (a == 1) (b == 1)
unfolding xor
differ_digit zero zero p q = refl
differ_digit zero (suc zero) p q = refl
differ_digit zero (suc (suc b)) p q = absurd (omega arith)
differ_digit (suc zero) zero p q = refl
differ_digit (suc zero) (suc zero) p q = refl
differ_digit (suc zero) (suc (suc b)) p q = absurd (omega arith)
differ_digit (suc (suc a)) b p q = absurd (omega arith)

pub bit-bit_xor : (a b i : ℕ) → bit (bit_xor a b) i ≡ xor (bit a i) (bit b i)
bit-bit_xor a b zero = rw (← differ_digit (a % 2) (b % 2) (omega arith) (omega arith)) (
    ap (λ (t : ℕ). t == 1)
      (omega (arith, bit_xor-split a b, differ-le (a % 2) (b % 2) (omega arith) (omega arith))))
bit-bit_xor a b (suc i) = rw bit_xor-half (bit-bit_xor (a / 2) (b / 2) i)

-- `~x` on an unsigned 32-bit word.
unfoldable pub complement : ℕ → ℕ
complement x = bit_xor x 0xffff_ffff

-- The bits of the numeral `2 ^ 32 - 1`.
ones : (k i : ℕ) → i < k → bit (2 ^ k - 1) i ≡ true
ones zero i h = elim h [ ]
ones (suc k) zero h = ground (arith, pow-suc 2 k, one-le-pow k 2)
ones (suc k) (suc i) h = rw (half_ones k) (ones k i (omega arith))
  where
    half_ones : (k : ℕ) → (2 ^ suc k - 1) / 2 ≡ 2 ^ k - 1
    half_ones k = omega (arith, pow-suc 2 k, one-le-pow k 2)

pub bit-complement : (x i : ℕ) → i < 32 → bit (complement x) i ≡ not (bit x i)
unfolding complement xor
bit-complement x i h = rw (bit-bit_xor, ones 32 i h) (xor-true (bit x i))
  where
    xor-true : (b : Bool) → xor b true ≡ not b
    xor-true true = refl
    xor-true false = refl

-- Two numbers with the same 32 bits, both below `2 ^ 32`, are one.
pub eq_of_bits : (k a b : ℕ) → a < 2 ^ k → b < 2 ^ k → ((i : ℕ) → i < k → bit a i ≡ bit b i) → a ≡ b
eq_of_bits zero a b p q h = omega arith
eq_of_bits (suc k) a b p q h = ground (
  arith,
  h 0 (omega arith),
  pow-suc 2 k,
  eq_of_bits k (a / 2) (b / 2) (omega (arith, pow-suc 2 k)) (omega (arith, pow-suc 2 k))
      (λ i hi. h (suc i) (omega arith)),
)

bit_and-le : (fuel x y : ℕ) → x ≤ fuel → bit_and x y ≤ y
bit_and-le fuel zero y h = omega (arith, bit_and-bitwise 0 y)
bit_and-le zero (suc x) y h = absurd (omega arith)
bit_and-le (suc fuel) (suc x) y h =
    omega (arith, bit_and-split (suc x) y, bit_and-le fuel (suc x / 2) (y / 2) (omega arith))

pub bit_and-lt : (k a b : ℕ) → b < 2 ^ k → bit_and a b < 2 ^ k
bit_and-lt k a b small = omega (arith, bit_and-le a a b (omega arith))

pub bit-zero : (i : ℕ) → bit 0 i ≡ false
bit-zero zero = refl
bit-zero (suc i) = bit-zero i

-- No bit stands above the width of a number.
pub bit-of_lt : (k a i : ℕ) → a < 2 ^ k → k ≤ i → bit a i ≡ false
bit-of_lt zero a i h p = let e : a ≡ 0 = omega arith in rw e (bit-zero i)
bit-of_lt (suc k) a zero h p = absurd (omega arith)
bit-of_lt (suc k) a (suc i) h p = bit-of_lt k (a / 2) i (omega (arith, pow-suc 2 k)) (omega arith)

-- A test of every index below a small bound, by evaluation.
unfoldable pub all_below : (bound : ℕ) → (ℕ → Bool) → Bool
all_below zero test = true
all_below (suc bound) test = all_below bound test && test bound

pub all_below-true :
    (bound : ℕ) (test : ℕ → Bool) (i : ℕ) → all_below bound test ≡ true → i < bound → test i ≡ true
unfolding all_below
all_below-true (suc bound) test i passed below = ground (arith, all_below-true bound test i)
all_below-true zero test i passed below = elim below [ ]

pub all_below-intro :
    (bound : ℕ) (test : ℕ → Bool)
    → ((i : ℕ) → i < bound → test i ≡ true)
    → all_below bound test ≡ true
unfolding all_below
all_below-intro (suc bound) test each =
    ground (
      arith,
      each bound (omega arith),
      all_below-intro bound test (λ i below. each i (omega arith)),
    )
all_below-intro zero test each = refl

-- `n >> 3` and `n >> 6`, and the shifts the other way.
pub bit-div_eight : (n i : ℕ) → bit (n / 8) i ≡ bit n (suc (suc (suc i)))
bit-div_eight n i = ap (λ t. bit t i) (omega arith)

pub bit-mul_eight : (n i : ℕ) → bit (n * 8) (suc (suc (suc i))) ≡ bit n i
bit-mul_eight n i = ap (λ t. bit t i) (omega arith)

pub bit-mul_eight_low : (n i : ℕ) → i < 3 → bit (n * 8) i ≡ false
bit-mul_eight_low n zero h = ground arith
bit-mul_eight_low n (suc zero) h = ground arith
bit-mul_eight_low n (suc (suc zero)) h = ground arith
bit-mul_eight_low n (suc (suc (suc i))) h = absurd (omega arith)

pub bit_and-eq_zero :
    (k m mask : ℕ)
    → mask < 2 ^ k
    → ((i : ℕ) → i < k → (bit m i && bit mask i) ≡ false)
    → bit_and m mask ≡ 0
bit_and-eq_zero k m mask small h =
    eq_of_bits k (bit_and m mask) 0 (bit_and-lt k m mask small) (omega (arith, one-le-pow k 2))
      (λ i hi. ground (arith, bit-bit_and m mask i, bit-zero i, h i hi))

pub bit_and-ne_zero : (m mask i : ℕ) → bit m i ≡ true → bit mask i ≡ true → ¬ (bit_and m mask ≡ 0)
bit_and-ne_zero m mask i p q e =
    ground (arith, bit-bit_and m mask i, bit-zero i, ap (λ (t : ℕ). bit t i) e)

pub bit_or-lt : (k a b : ℕ) → a < 2 ^ k → b < 2 ^ k → bit_or a b < 2 ^ k
bit_or-lt zero a b p q =
    let ea : a ≡ 0 = omega arith in let eb : b ≡ 0 = omega arith in rw (ea, eb) (omega arith)
bit_or-lt (suc k) a b p q = omega (
  arith,
  bit_or-split a b,
  pow-suc 2 k,
  bit_or-lt k (a / 2) (b / 2) (omega (arith, pow-suc 2 k)) (omega (arith, pow-suc 2 k)),
)

pub bit_xor-lt : (k a b : ℕ) → a < 2 ^ k → b < 2 ^ k → bit_xor a b < 2 ^ k
bit_xor-lt zero a b p q =
    let ea : a ≡ 0 = omega arith in let eb : b ≡ 0 = omega arith in rw (ea, eb) (omega arith)
bit_xor-lt (suc k) a b p q = omega (
  arith,
  bit_xor-split a b,
  differ-le (a % 2) (b % 2) (omega arith) (omega arith),
  pow-suc 2 k,
  bit_xor-lt k (a / 2) (b / 2) (omega (arith, pow-suc 2 k)) (omega (arith, pow-suc 2 k)),
)
