-- ===== src/Fs/Ops/Files/Transfer.antt =====
-- Flags and buffers of open files: O_DIRECT, and the transfers that need an aligned buffer.
use bindfs.Base.{ℕ, ◌+◌, ◌-◌, ◌*◌, ◌/◌, ◌%◌, ◌^◌, ◌≤◌, ◌<◌, ◌≡◌, refl, arith}
use bindfs.Base.{true, false, not, ◌&&◌, ◌||◌, ◌==◌, if◌then◌else◌, Bool-cases, inl, inr}
use native.Mathlib.Nat.{mod-lt, mod-eq_of_lt, div-add-mod, mul-mod_right}
use bindfs.Base.Bits.{bit, complement, bit-bit_and, bit-complement, all_below, all_below-true}
use bindfs.Fs.Settings.{Settings, Context}
use bindfs.Fs.Os.{Os, Peers}
use bindfs.Fs.Ops.Files.{o_direct, round_up_buffer_size_for_direct_io, open_flags}

-- The rounded size holds the transfer, is a multiple of the alignment, and is the least such size,
-- for every alignment but 0 and every size that, with the alignment added, is at most 2 ^ 64.
pub round_up_lem :
    (alignment size : ℕ)
    → 0 < alignment
    → size + alignment ≤ 2 ^ 64
    → let r = round_up_buffer_size_for_direct_io alignment size in
      (size ≤ r) × (r % alignment ≡ 0) × (r < size + alignment)
unfolding round_up_buffer_size_for_direct_io
round_up_lem alignment size h fits = elim (Bool-cases (size % alignment == 0)) [
  | inl e ↦ rw e (omega arith, ground arith, omega arith)
  | inr e ↦
      rw (e, below e) (omega (arith, mod-lt size h), next_multiple, ground (arith, mod-lt size h))
]
  where
    below :
        (size % alignment == 0) ≡ false
        → (size - size % alignment + alignment) % 2 ^ 64 ≡ size - size % alignment + alignment
    below e = mod-eq_of_lt (ground (arith, e, mod-lt size h))

    multiple : size - size % alignment + alignment ≡ alignment * (size / alignment + 1)
    multiple = omega (arith, div-add-mod size alignment)

    next_multiple : (size - size % alignment + alignment) % alignment ≡ 0
    next_multiple = rw multiple (mul-mod_right alignment (size / alignment + 1))

direct_table : all_below 32 (λ i. if i == 14 then bit o_direct i else not (bit o_direct i)) ≡ true
unfolding all_below
direct_table = refl

direct_bit : (i : ℕ) → i < 32 → bit o_direct i ≡ (i == 14)
direct_bit i h = ground (
  arith,
  all_below-true 32 (λ i. if i == 14 then bit o_direct i else not (bit o_direct i)) i direct_table
      h,
)

module _ (os : Os) (peers : Peers os.State) (settings : Settings) (fc : Context) where
  -- O_DIRECT, the bit 14, reaches `open` only with --forward-odirect, and every other flag does.
  pub bit-open_flags :
      (flags i : ℕ)
      → i < 32
      → bit (open_flags os peers settings fc flags) i
        ≡ (bit flags i && (settings.forward_odirect || not (i == 14)))
  unfolding open_flags
  bit-open_flags flags i h = ground (
    arith,
    bit-bit_and flags (complement o_direct) i,
    bit-complement o_direct i h,
    direct_bit i h,
  )
