-- ===== src/Misc/Argv/Pointers.antt =====
-- `dup_argv` of src/misc.c in an address space of 64 bits: no pointer that it stores is null.
use bindfs.Base.{
  ℕ, ◌+◌, ◌*◌, ◌^◌, ◌≤◌, ◌<◌, ◌≡◌, inl, inr, List, [], ◌∷◌, some, All, Mem, length, arith,
}
use mathlib.Core.Path.{subst}
use bindfs.Base.Maybe.{Returns, Returns-known}
use bindfs.Base.Text.{Bytes}
use bindfs.Arena.{Region, Heap, Arena, Block, sizeof_block}
use bindfs.Arena.Apart.{InArena, IsArena, IsBlock, IsMalloc}
use bindfs.Misc.Argv.{Memory, dup_argv}
use bindfs.Misc.Argv.Copied.{
  HoldsArgv, HoldsArgv-map, StartsPiece, IsDuplicate, dup_argv-IsDuplicate,
}

-- A pointer that is not null, in 64 bits.
abbrev pub IsPointer : ℕ → Type 0
IsPointer p = (0 < p) × (p < 2 ^ 64)

-- The memory of a block lies in an address space of 64 bits.
abbrev pub IsAddressed : Block → Type 0
IsAddressed b = b.address + sizeof_block + b.size ≤ 2 ^ 64

InArena-IsPointer :
    (a : Arena) (q : Region)
    → All IsBlock a
    → All IsAddressed a
    → 1 ≤ q.size
    → InArena a q
    → IsPointer q.start
InArena-IsPointer [] q blocks h size within = absurd within
InArena-IsPointer (b ∷ bs) q (u, us) (h, hs) size (inl within) =
    (omega (arith, u, h, within), omega (arith, u, h, within))
InArena-IsPointer (b ∷ bs) q (u, us) (h, hs) size (inr within) =
    InArena-IsPointer bs q us hs size within

StartsPiece-IsPointer :
    (a : Arena) → All IsBlock a → All IsAddressed a → (p : ℕ) → StartsPiece a p → IsPointer p
StartsPiece-IsPointer a blocks h p (q, e, size, within) =
    subst IsPointer e (InArena-IsPointer a q blocks h size within)

module _ (malloc : Heap → ℕ → ℕ) (is_malloc : IsMalloc malloc) (old : Heap) where
  -- `dup_argv` copies the arguments: at the address that it returns stand pointers to texts equal to
  -- the arguments, in their order, each of 64 bits and none of them null, with a null pointer behind
  -- them; and nothing changes in the pieces that the arena had given before. For any arena in use,
  -- with a `malloc` that gives memory that is not in use and always has some, sizes without overflow,
  -- and blocks of the arena that in the end lie in an address space of 64 bits.
  pub dup_argv-HoldsArgv :
      (argv : List Bytes) (pieces : List Region) (a : Arena) (heap : Heap) (mem : Memory)
      → IsArena old pieces a heap
      → sizeof_block + (length argv + 1) * 8 < 2 ^ 64
      → All (λ arg. sizeof_block + (length arg + 1) < 2 ^ 64) argv
      → ((list : ℕ) (a' : Arena) (heap' : Heap) (mem' : Memory)
          → dup_argv malloc argv a heap mem ≡ some (list, a', heap', mem')
          → All IsAddressed a')
      → Returns
          (λ (list, a', heap', mem').
            HoldsArgv IsPointer mem' list argv
            × ((p : Region) (k : ℕ)
                → Mem p pieces
                → p.start ≤ k
                → k < p.start + p.size
                → mem' k ≡ mem k))
          (dup_argv malloc argv a heap mem)
  dup_argv-HoldsArgv argv pieces a heap mem h fits small addressed =
      Returns-known (IsDuplicate malloc is_malloc old argv pieces mem) _
        (dup_argv malloc argv a heap mem)
        (dup_argv-IsDuplicate malloc is_malloc old argv pieces a heap mem h fits small)
        λ (list, a', heap', mem') e (holds, keeps, blocks). (
          HoldsArgv-map mem' list argv
              (StartsPiece-IsPointer a' blocks (addressed list a' heap' mem' e)) holds,
          keeps,
        )
