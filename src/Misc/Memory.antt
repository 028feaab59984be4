-- ===== src/Misc/Memory.antt =====
-- The growing memory of src/misc.c: `grow_array_impl` and `struct memory_block`.
pub mod Growth
use bindfs.Base.{ℕ, zero, suc, ◌+◌, ◌*◌, ◌-◌, ◌^◌, ◌/◌, ◌%◌, List, [], ◌++◌, length}
use bindfs.Base.{◌==◌, leb, ltb, if◌then◌else◌}
use bindfs.Base.Text.{Bytes}

-- The next capacity of a full array. Capacities are taken not to reach 2 ^ 31.
unfoldable pub grow_array_impl : ℕ → ℕ
grow_array_impl capacity = if capacity == 0 then 8 else capacity * 2

-- `bytes` is what has been written to the memory at `ptr`.
pub record MemoryBlock : Type 0 where
  pub bytes : Bytes
  pub size : ℕ
  pub capacity : ℕ

unfoldable pub init_memory_block : ℕ → MemoryBlock
init_memory_block initial_capacity = record { bytes = []; size = 0; capacity = initial_capacity }

abbrev pub size_max : ℕ
size_max = 2 ^ 64 - 1

-- How the loop that doubles the capacity ends; it runs on fuel.
pub data Doubling : Type 0 where
  grown : ℕ → Doubling
  too_large : Doubling
  out_of_fuel : Doubling

abbrev pub next_cap : ℕ → ℕ
next_cap new_cap = if new_cap == 0 then 8 else new_cap * 2

unfoldable pub double_until : ℕ → ℕ → ℕ → Doubling
double_until zero new_cap size = if leb size new_cap then grown new_cap else out_of_fuel
double_until (suc fuel) new_cap size =
    let rest = double_until fuel (next_cap new_cap) size in
    if leb size new_cap
    then grown new_cap
    else if ltb (size_max / 2) new_cap
    then too_large
    else rest

-- The block grows or the process aborts. The sum of the sizes is one of 64 bits.
pub data Grown : Type 0 where
  block : MemoryBlock → Grown
  aborted : Grown
  stuck : Grown

abbrev pub with_capacity : MemoryBlock → Doubling → Grown
with_capacity a (grown new_cap) = block (record a { capacity = new_cap })
with_capacity a too_large = aborted
with_capacity a out_of_fuel = stuck

-- The growth to a size that has been set.
unfoldable pub grow_to : MemoryBlock → ℕ → Grown
grow_to a size =
    let growth = double_until 65 a.capacity size in
    let b = record a { size = size } in
    if leb a.capacity size then with_capacity b growth else block b

unfoldable pub grow_memory_block : MemoryBlock → ℕ → Grown
unfolding grow_to
grow_memory_block a amount = grow_to a ((a.size + amount) % 2 ^ 64)

-- The offset of the copy, and the block.
pub data Appended : Type 0 where
  appended : ℕ → MemoryBlock → Appended
  append_aborted : Appended
  append_stuck : Appended

abbrev pub write_at_end : ℕ → Bytes → Grown → Appended
write_at_end dest src (block a) = appended dest (record a { bytes = a.bytes ++ src })
write_at_end dest src aborted = append_aborted
write_at_end dest src stuck = append_stuck

unfoldable pub append_to_memory_block : MemoryBlock → Bytes → Appended
unfolding grow_memory_block
append_to_memory_block a src = write_at_end a.size src (grow_memory_block a (length src))

unfoldable pub free_memory_block : MemoryBlock → MemoryBlock
unfolding init_memory_block
free_memory_block a = init_memory_block 0
