-- ===== src/Arena.antt =====
-- src/arena.c: memory that is handed out in pieces, from blocks that `malloc` gives and that are freed
-- together.
pub mod Apart
pub mod Pieces
pub mod Whole
use bindfs.Base.{
  ℕ, ◌+◌, ◌-◌, ◌*◌, ◌^◌, ◌%◌, ◌≤◌, ◌⊎◌, List, [], ◌∷◌, Option, none, some, Bool, true,
}
use bindfs.Base.{false, not, ◌==◌, ltb, if◌then◌else◌}
use bindfs.Base.Maybe.{◌>>=◌}

-- Memory from an address on.
pub record Region : Type 0 where
  pub start : ℕ
  pub size : ℕ

-- What the program has of `malloc`, the newest first.
abbrev pub Heap : Type 0
Heap = List Region

-- `struct block`, in its place in memory.
pub record Block : Type 0 where
  pub address : ℕ
  pub size : ℕ
  pub used : ℕ

-- `struct arena`: the blocks from `cur_block` on, in the order of their `next` pointers.
abbrev pub Arena : Type 0
Arena = List Block

-- `sizeof(struct block)`, with pointers and sizes of 64 bits.
abbrev pub sizeof_block : ℕ
sizeof_block = 24

abbrev pub min_block_room : ℕ
min_block_room = 16 * 1024 - sizeof_block

abbrev pub arena_init : Arena
arena_init = []

-- The address is 0 where `malloc` has no memory; the program crashes when it then writes there.
abbrev pub with_block : Arena → Heap → ℕ → ℕ → ℕ → Option (Arena × Heap)
with_block a heap address amount room =
    if address == 0
    then none
    else some (
      record { address = address; size = room; used = 0 } ∷ a,
      record { start = address; size = amount } ∷ heap,
    )

-- `b->size - b->used < amount`, over `size_t`.
abbrev pub lacks_room : Arena → ℕ → Bool
lacks_room [] amount = true
lacks_room (b ∷ bs) amount = ltb ((b.size + 2 ^ 64 - b.used) % 2 ^ 64) amount

-- The piece, and the arena with it.
abbrev pub take_piece : ℕ → Arena → Heap → Option (Region × Arena × Heap)
take_piece amount [] heap = none
take_piece amount (b ∷ bs) heap = some (
  record { start = b.address + sizeof_block + b.used; size = amount },
  record b { used = (b.used + amount) % 2 ^ 64 } ∷ bs,
  heap,
)

-- `free` of an address that `malloc` has not given, or that has been freed, is an error.
unfoldable pub free : ℕ → Heap → Option Heap
free address [] = none
free address (r ∷ heap) = elim (r.start == address) [
  | true ↦ some heap
  | false ↦ free address heap >>= λ rest. some (r ∷ rest)
]

-- The loop of `arena_free`.
unfoldable pub arena_free : Arena → Heap → Option Heap
unfolding free
arena_free [] heap = some heap
arena_free (b ∷ bs) heap = free b.address heap >>= λ rest. arena_free bs rest

module _ (malloc : Heap → ℕ → ℕ) where
  unfoldable pub add_block : ℕ → Arena → Heap → Option (Arena × Heap)
  add_block room_wanted a heap =
      let room = if ltb room_wanted min_block_room then min_block_room else room_wanted in
      let amount = (sizeof_block + room) % 2 ^ 64 in
      with_block a heap (malloc heap amount) amount room

  unfoldable pub arena_malloc : ℕ → Arena → Heap → Option (Region × Arena × Heap)
  unfolding add_block
  arena_malloc amount a heap =
      if lacks_room a amount
      then (add_block amount a heap >>= λ (a', heap'). take_piece amount a' heap')
      else take_piece amount a heap

  -- One call after the other: the pieces, the last one first.
  unfoldable pub allocate :
      List ℕ → List Region → Arena → Heap → Option (List Region × Arena × Heap)
  unfolding arena_malloc
  allocate [] pieces a heap = some (pieces, a, heap)
  allocate (amount ∷ amounts) pieces a heap = arena_malloc amount a heap >>= λ (piece, a', heap').
      allocate amounts (piece ∷ pieces) a' heap'
