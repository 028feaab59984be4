-- ===== src/Arena/Apart.antt =====
-- Pieces of memory that do not overlap, and what holds of the arena of src/arena.c.
use bindfs.Base.{ℕ, ◌+◌, ◌^◌, ◌≤◌, ◌<◌, ◌≡◌, ◌≢◌, ◌⊎◌, inl, inr, List, [], ◌∷◌, ◌++◌, All, arith}
use bindfs.Arena.{Region, Heap, Block, Arena, sizeof_block}

abbrev pub Apart : Region → Region → Type 0
Apart r s = (r.start + r.size ≤ s.start) ⊎ (s.start + s.size ≤ r.start)

abbrev pub Within : Region → Region → Type 0
Within p r = (r.start ≤ p.start) × (p.start + p.size ≤ r.start + r.size)

pub Apart-Within : (p q r s : Region) → Apart r s → Within p r → Within q s → Apart p q
Apart-Within p q r s (inl h) u v = inl (omega arith)
Apart-Within p q r s (inr h) u v = inr (omega arith)

-- No two regions of a list overlap.
abbrev pub IsApart : List Region → Type 0
IsApart [] = Unit
IsApart (r ∷ rs) = All (Apart r) rs × IsApart rs

-- The memory of a block, and the part of it that has been handed out.
abbrev pub memory_of : Block → Region
memory_of b = record { start = b.address; size = sizeof_block + b.size }

abbrev pub handed_out : Block → Region
handed_out b = record { start = b.address + sizeof_block; size = b.used }

abbrev pub memory : Arena → List Region
memory [] = []
memory (b ∷ bs) = memory_of b ∷ memory bs

abbrev pub InArena : Arena → Region → Type 0
InArena [] p = ⊥
InArena (b ∷ bs) p = Within p (handed_out b) ⊎ InArena bs p

abbrev pub IsBlock : Block → Type 0
IsBlock b = (b.used ≤ b.size) × (sizeof_block + b.size < 2 ^ 64)

-- The arena's blocks are what has been added to the heap, and the pieces lie in them, no two of them
-- over one another.
pub record IsArena (old : Heap) (pieces : List Region) (a : Arena) (heap : Heap) : Type 0 where
  pub owned : heap ≡ memory a ++ old
  pub apart : IsApart heap
  pub blocks : All IsBlock a
  pub inside : All (InArena a) pieces
  pub pieces_apart : IsApart pieces

-- What the C library promises: `malloc` gives memory that nothing else of the program lies in. Here it
-- always has some.
pub record IsMalloc (malloc : Heap → ℕ → ℕ) : Type 0 where
  pub not_null : (heap : Heap) (amount : ℕ) → malloc heap amount ≢ 0
  pub unused :
      (heap : Heap) (amount : ℕ)
      → All (Apart (record { start = malloc heap amount; size = amount })) heap
