-- ===== src/Mode.antt =====
-- The mode word of `struct stat`: its file type and the nine permission bits, with the constants of
-- <sys/stat.h> that src/bindfs.c and src/permchain.c use.
use bindfs.Base.{ℕ, ◌≤◌, ◌<◌, ◌≡◌, refl, Bool, true, not, bit_and, arith}
use bindfs.Base.{◌==◌}
use native.Mathlib.Decide.{dec_lt}
use bindfs.Base.Bits.{bit, bit-bit_and, bit_and-lt, eq_of_bits, all_below, all_below-true}

abbrev pub s_ifmt : ℕ
s_ifmt = 0o170000

abbrev pub s_ififo : ℕ
s_ififo = 0o010000

abbrev pub s_ifdir : ℕ
s_ifdir = 0o040000

abbrev pub s_ifblk : ℕ
s_ifblk = 0o060000

abbrev pub s_ifreg : ℕ
s_ifreg = 0o100000

abbrev pub s_iflnk : ℕ
s_iflnk = 0o120000

abbrev pub s_isgid : ℕ
s_isgid = 0o2000

abbrev pub file_type : ℕ → ℕ
file_type m = bit_and m s_ifmt

abbrev pub is_dir : ℕ → Bool
is_dir m = file_type m == s_ifdir

abbrev pub is_reg : ℕ → Bool
is_reg m = file_type m == s_ifreg

abbrev pub is_blk : ℕ → Bool
is_blk m = file_type m == s_ifblk

abbrev pub is_lnk : ℕ → Bool
is_lnk m = file_type m == s_iflnk

abbrev pub is_fifo : ℕ → Bool
is_fifo m = file_type m == s_ififo

pub data Class : Type 0 where
  user group other : Class

pub data Kind : Type 0 where
  read write exec : Kind

-- Where a permission stands in a mode.
abbrev pub index : Class → Kind → ℕ
index user read = 8
index user write = 7
index user exec = 6
index group read = 5
index group write = 4
index group exec = 3
index other read = 2
index other write = 1
index other exec = 0

-- The permissions of a mode.
abbrev pub perms : ℕ → Class → Kind → Bool
perms m c k = bit m (index c k)

low_bits_of_type : all_below 12 (λ i. not (bit s_ifmt i)) ≡ true
unfolding all_below
low_bits_of_type = refl

-- The file type is in the bits from 12 to 15.
pub file_type_of_bits :
    (m n : ℕ) → ((i : ℕ) → 9 ≤ i → i < 32 → bit m i ≡ bit n i) → file_type m ≡ file_type n
file_type_of_bits m n h =
    eq_of_bits 16 (file_type m) (file_type n) (bit_and-lt 16 m s_ifmt (omega arith))
      (bit_and-lt 16 n s_ifmt (omega arith)) same
  where
    same : (i : ℕ) → i < 16 → bit (file_type m) i ≡ bit (file_type n) i
    same i hi = elim (dec_lt i 9) [
      | yes low ↦ ground (
        arith,
        bit-bit_and m s_ifmt i,
        bit-bit_and n s_ifmt i,
        all_below-true 12 (λ i. not (bit s_ifmt i)) i low_bits_of_type (omega arith),
      )
      | no high ↦
          ground
            (arith, bit-bit_and m s_ifmt i, bit-bit_and n s_ifmt i, h i (omega arith) (omega arith))
    ]
