-- ===== src/Misc/Memory/Growth.antt =====
-- The loop of `grow_memory_block` in src/misc.c ends, and gives room for what is written.
use bindfs.Base.{
  ℕ, zero, suc, ◌+◌, ◌^◌, ◌/◌, ◌%◌, ◌≤◌, ◌<◌, ◌≡◌, refl, inl, inr, true, arith, Bool-cases, leb→le,
}
use bindfs.Base.{leb, ltb, if◌then◌else◌}
use bindfs.Misc.Memory.{
  MemoryBlock, Doubling, grown, too_large, out_of_fuel, next_cap, double_until, Grown, block,
  aborted, stuck, with_capacity, grow_to, grow_memory_block, size_max,
}

-- The capacity after so many rounds.
abbrev capacity_after : ℕ → ℕ → ℕ
capacity_after zero room = room
capacity_after (suc n) room = capacity_after n (next_cap room)

capacity_after_le : (n a b : ℕ) → 0 < a → a ≤ b → capacity_after n a ≤ capacity_after n b
capacity_after_le zero a b p h = h
capacity_after_le (suc n) a b p h =
    capacity_after_le n (next_cap a) (next_cap b) (ground arith) (ground arith)

capacity_after_65 : (room : ℕ) → 2 ^ 64 ≤ capacity_after 65 room
capacity_after_65 zero = omega arith
capacity_after_65 (suc room) =
    omega (arith, capacity_after_le 65 1 (suc room) (omega arith) (omega arith))

-- The loop ends with room for `size` bytes, or in the abort, for more than half of what `size_t` can
-- count.
abbrev HasRoom : ℕ → Doubling → Type 0
HasRoom size (grown room) = size ≤ room
HasRoom size too_large = 2 ^ 63 < size
HasRoom size out_of_fuel = ⊥

either_room :
    (size room : ℕ) (rest : Doubling)
    → HasRoom size rest
    → HasRoom size
        (if leb size room then grown room else if ltb (size_max / 2) room then too_large else rest)
either_room size room rest h = elim (Bool-cases (leb size room)) [
  | inl e ↦ rw e (leb→le size room e)
  | inr e ↦ elim (Bool-cases (ltb (size_max / 2) room)) [
    | inl k ↦ rw (e, k) (ground (arith, e, k))
    | inr k ↦ rw (e, k) h
  ]
]

double_until-HasRoom :
    (fuel room size : ℕ)
    → size < 2 ^ 64
    → 2 ^ 64 ≤ capacity_after fuel room
    → HasRoom size (double_until fuel room size)
unfolding double_until
double_until-HasRoom zero room size s h =
    let fits : leb size room ≡ true = ground arith in rw fits (leb→le size room fits)
double_until-HasRoom (suc fuel) room size s h =
    either_room size room _ (double_until-HasRoom fuel (next_cap room) size s h)

-- What a block has become: the process has aborted, or the block has the new size and the room for
-- it.
abbrev pub IsGrown : MemoryBlock → ℕ → Grown → Type 0
IsGrown a size (block b) = (b.size ≡ size) × (b.size ≤ b.capacity) × (b.bytes ≡ a.bytes)
IsGrown a size aborted = 2 ^ 63 < size
IsGrown a size stuck = ⊥

with_capacity-IsGrown :
    (a b : MemoryBlock) (size : ℕ) (r : Doubling)
    → b.size ≡ size
    → b.bytes ≡ a.bytes
    → HasRoom size r
    → IsGrown a size (with_capacity b r)
with_capacity-IsGrown a b size (grown room) e k h = (e, rw e h, k)
with_capacity-IsGrown a b size too_large e k h = h
with_capacity-IsGrown a b size out_of_fuel e k h = h

grow_to-IsGrown : (a : MemoryBlock) (size : ℕ) → size < 2 ^ 64 → IsGrown a size (grow_to a size)
unfolding grow_to
grow_to-IsGrown a size h = elim (Bool-cases (leb a.capacity size)) [
  | inl e ↦ rw e (
      with_capacity-IsGrown a (record a { size = size }) size (double_until 65 a.capacity size) refl
        refl (double_until-HasRoom 65 a.capacity size h (capacity_after_65 a.capacity)))
  | inr e ↦ rw e (refl, ground (arith, e), refl)
]

-- `grow_memory_block` ends for every block: it gives the new size, the room for it and the same
-- bytes, or it aborts, which it does only above half of what `size_t` can count. For sizes whose sum
-- has 64 bits.
pub grow_memory_block-IsGrown :
    (a : MemoryBlock) (amount : ℕ)
    → a.size + amount < 2 ^ 64
    → IsGrown a (a.size + amount) (grow_memory_block a amount)
unfolding grow_memory_block
grow_memory_block-IsGrown a amount h =
    let whole : (a.size + amount) % 2 ^ 64 ≡ a.size + amount = omega (arith, h) in
    rw whole (grow_to-IsGrown a (a.size + amount) h)
