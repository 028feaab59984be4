-- ===== src/Misc/Argv.antt =====
-- `dup_argv` of src/misc.c, which copies arguments into an arena, over memory of bytes.
pub mod Held
pub mod Copied
pub mod Pointers
use bindfs.Base.{
  ℕ, ◌+◌, ◌*◌, ◌^◌, ◌/◌, ◌%◌, List, [], ◌∷◌, ◌++◌, Option, some, ◌==◌, if◌then◌else◌, length,
}
use bindfs.Base.Maybe.{◌>>=◌}
use bindfs.Base.Text.{Bytes}
use bindfs.Arena.{Region, Heap, Arena, arena_malloc}

-- The byte at each address.
abbrev pub Memory : Type 0
Memory = ℕ → ℕ

abbrev pub store : Memory → ℕ → ℕ → Memory
store mem address byte k = if address == k then byte else mem k

-- `memcpy` of some bytes.
unfoldable pub write_bytes : Memory → ℕ → Bytes → Memory
write_bytes mem address [] = mem
write_bytes mem address (c ∷ cs) = write_bytes (store mem address c) (address + 1) cs

-- A pointer in memory has eight bytes.
abbrev pub pointer_bytes : ℕ → Bytes
pointer_bytes p =
    p % 256
    ∷ p / 2 ^ 8 % 256
    ∷ p / 2 ^ 16 % 256
    ∷ p / 2 ^ 24 % 256
    ∷ p / 2 ^ 32 % 256
    ∷ p / 2 ^ 40 % 256
    ∷ p / 2 ^ 48 % 256
    ∷ p / 2 ^ 56 % 256
    ∷ []

module _ (malloc : Heap → ℕ → ℕ) where
  -- The loop, with the null pointer behind it.
  unfoldable pub dup_args : List Bytes → ℕ → Arena → Heap → Memory → Option (Arena × Heap × Memory)
  unfolding write_bytes
  dup_args [] next_ptr a heap mem = some (a, heap, write_bytes mem next_ptr (pointer_bytes 0))
  dup_args (arg ∷ args) next_ptr a heap mem =
      arena_malloc malloc (length arg + 1) a heap >>= λ (str, a', heap').
      dup_args args (next_ptr + 8) a' heap'
        (write_bytes (write_bytes mem str.start (arg ++ 0 ∷ [])) next_ptr (pointer_bytes str.start))

  unfoldable pub dup_argv : List Bytes → Arena → Heap → Memory → Option (ℕ × Arena × Heap × Memory)
  unfolding dup_args
  dup_argv argv a heap mem =
      arena_malloc malloc ((length argv + 1) * 8) a heap >>= λ (pointer_list, a', heap').
      dup_args argv pointer_list.start a' heap' mem >>= λ (a'', heap'', mem').
      some (pointer_list.start, a'', heap'', mem')
