-- ===== src/Fs/Attr/Types.antt =====
-- What the bit operations of `getattr_common` do to the type of a file.
use bindfs.Base.{ℕ, ◌<◌, ◌≡◌, refl, true, not, ◌||◌, arith, bit_and, bit_xor}
use mathlib.Core.Bool.{xor}
use bindfs.Base.Bits.{
  bit, complement, bit-bit_and, bit-bit_xor, bit-complement, bit-of_lt, bit_and-lt, eq_of_bits,
  bit_xor-lt, all_below, all_below-true,
}
use bindfs.Base.Errors.{Result, ok, err}
use bindfs.Mode.{file_type, file_type_of_bits, is_blk, s_ifreg, s_ifmt}
use bindfs.Fs.Attr.{drop_unless}

-- Taking permissions away leaves the type alone.
pub file_type-clear :
    (m bits : ℕ) → bits < 512 → file_type (bit_and m (complement bits)) ≡ file_type m
file_type-clear m bits small = file_type_of_bits (bit_and m (complement bits)) m λ i lo h.
    ground (
      arith,
      bit-bit_and m (complement bits) i,
      bit-complement bits i h,
      bit-of_lt 9 bits i small lo,
    )

pub file_type-drop_unless :
    (r : Result (Unit {0})) (bits m : ℕ)
    → bits < 512
    → file_type (drop_unless r bits m) ≡ file_type m
unfolding drop_unless
file_type-drop_unless (ok _) bits m small = refl
file_type-drop_unless (err _) bits m small = file_type-clear m bits small

flip_table : all_below 16 (λ i. not (bit 0o160000 i) || bit s_ifmt i) ≡ true
unfolding all_below
flip_table = refl

pub low_table : all_below 9 (λ i. bit 0o777 i) ≡ true
unfolding all_below
low_table = refl

-- The bits that turn a block device into a regular file.
file_type-flip : (m : ℕ) → file_type (bit_xor m 0o160000) ≡ bit_xor (file_type m) 0o160000
unfolding xor
file_type-flip m =
    eq_of_bits 16 (file_type (bit_xor m 0o160000)) (bit_xor (file_type m) 0o160000)
      (bit_and-lt 16 (bit_xor m 0o160000) s_ifmt (omega arith))
      (bit_xor-lt 16 (file_type m) 0o160000 (bit_and-lt 16 m s_ifmt (omega arith)) (omega arith))
      (same m)
  where
    same :
        (m i : ℕ)
        → i < 16
        → bit (file_type (bit_xor m 0o160000)) i ≡ bit (bit_xor (file_type m) 0o160000) i
    same m i h = ground (
      arith,
      bit-bit_and (bit_xor m 0o160000) s_ifmt i,
      bit-bit_xor m 0o160000 i,
      bit-bit_xor (file_type m) 0o160000 i,
      bit-bit_and m s_ifmt i,
      all_below-true 16 (λ i. not (bit 0o160000 i) || bit s_ifmt i) i flip_table h,
    )

-- A block device becomes a regular file.
pub file_type-block_flip : (m : ℕ) → is_blk m ≡ true → file_type (bit_xor m 0o160000) ≡ s_ifreg
file_type-block_flip m h =
    let blk : file_type m ≡ 0o060000 = ground arith in rw (file_type-flip, blk)
