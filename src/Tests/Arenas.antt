-- ===== src/Tests/Arenas.antt =====
-- An arena of src/arena.c over a `malloc` that always takes memory behind all that is in use.
use bindfs.Base.{
  List, ◌<◌, ℕ, ◌+◌, ◌≤◌, ◌≡◌, refl, inl, inr, [], ◌∷◌, some, All, Mem, Mem-All, arith,
}
use bindfs.Base.Maybe.{Returns}
use bindfs.Arena.{Region, Heap, arena_malloc, arena_init, arena_free, allocate}
use bindfs.Base.Text.{Bytes, codes}
use bindfs.Arena.Apart.{Apart, IsApart, IsArena, IsMalloc}
use bindfs.Misc.Argv.{Memory, dup_argv}
use bindfs.Misc.Argv.Copied.{HoldsArgv}
use bindfs.Misc.Argv.Pointers.{IsPointer, IsAddressed, dup_argv-HoldsArgv}
use mathlib.Core.Path.{subst}
use bindfs.Arena.Whole.{sizes, onto, allocate-arena_free}

abbrev top : Heap → ℕ
top [] = 1
top (r ∷ rs) = r.start + r.size + top rs

top_pos : (heap : Heap) → 1 ≤ top heap
top_pos [] = omega arith
top_pos (r ∷ rs) = omega (arith, top_pos rs)

top_above : (heap : Heap) (r : Region) → Mem r heap → r.start + r.size ≤ top heap
top_above [] r h = absurd h
top_above (q ∷ rs) r (inl e) = rw e (omega arith)
top_above (q ∷ rs) r (inr h) = omega (arith, top_above rs r h)

abbrev at_top : Heap → ℕ → ℕ
at_top heap amount = top heap

at_top-IsMalloc : IsMalloc at_top
at_top-IsMalloc = record {
  not_null = λ heap amount e. absurd (omega (arith, top_pos heap));
  unused = λ heap amount. Mem-All _ heap λ r m. inr (top_above heap r m);
}

-- Three pieces, the second of which needs a block of its own.
three_pieces :
    Returns
      (λ (pieces, a, heap). sizes pieces ≡ 8 ∷ 20000 ∷ 100 ∷ [])
      (allocate at_top (100 ∷ 20000 ∷ 8 ∷ []) [] arena_init [])
unfolding allocate
three_pieces = refl

allocate-arena_free_example :
    let old : Heap = record { start = 4096; size = 64 } ∷ [] in
    Returns
      (λ (pieces, a, heap).
        (sizes pieces ≡ onto (100 ∷ 20000 ∷ 8 ∷ []) [])
        × IsApart pieces
        × All (λ p. All (Apart p) old) pieces
        × (arena_free a heap ≡ some old))
      (allocate at_top (100 ∷ 20000 ∷ 8 ∷ []) [] arena_init old)
allocate-arena_free_example =
    allocate-arena_free at_top at_top-IsMalloc (record { start = 4096; size = 64 } ∷ [])
      (100 ∷ 20000 ∷ 8 ∷ []) (tt, tt) (omega arith, (omega arith, (omega arith, tt)))

abbrev empty_memory : Memory
empty_memory k = 0

abbrev two_args : List Bytes
two_args = codes "bindfs" ∷ codes "-oro" ∷ []

nothing_given : IsArena [] [] arena_init []
nothing_given = record { owned = refl; apart = tt; blocks = tt; inside = tt; pieces_apart = tt }

two_args-IsAddressed :
    Returns
      (λ (list, a', heap', mem'). All IsAddressed a')
      (dup_argv at_top two_args arena_init [] empty_memory)
unfolding dup_argv arena_malloc
two_args-IsAddressed = (omega arith, tt)

dup_argv-HoldsArgv_example :
    Returns
      (λ (list, a', heap', mem').
        HoldsArgv IsPointer mem' list two_args
        × ((p : Region) (k : ℕ)
            → Mem p []
            → p.start ≤ k
            → k < p.start + p.size
            → mem' k ≡ empty_memory k))
      (dup_argv at_top two_args arena_init [] empty_memory)
dup_argv-HoldsArgv_example =
    dup_argv-HoldsArgv at_top at_top-IsMalloc [] two_args [] arena_init [] empty_memory
      nothing_given (omega arith) (omega arith, (omega arith, tt))
      λ list a' heap' mem' e.
        subst (Returns (λ (l, b, h, m). All IsAddressed b)) e two_args-IsAddressed
