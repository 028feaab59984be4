-- ===== src/Arena/Whole.antt =====
-- An arena of src/arena.c from `arena_init` to `arena_free`.
use mathlib.Core.Path.{subst}
use bindfs.Base.{
  ℕ, ◌+◌, ◌^◌, ◌<◌, ◌≡◌, refl, inl, inr, List, [], ◌∷◌, ◌++◌, some, All, Mem, All-Mem, Mem-All,
  Mem-append-back, ==_self, arith,
}
use bindfs.Base.Maybe.{Returns, Returns->>=, Returns-map}
use bindfs.Arena.{
  Region, Heap, Arena, sizeof_block, arena_init, free, arena_free, arena_malloc, allocate,
}
use bindfs.Arena.Apart.{Apart, Apart-Within, IsApart, memory, IsArena, IsMalloc}
use bindfs.Arena.Pieces.{InArena-memory, IsPiece, arena_malloc-IsPiece}

abbrev pub sizes : List Region → List ℕ
sizes [] = []
sizes (r ∷ rs) = r.size ∷ sizes rs

-- The numbers in front of a list, the last one first.
abbrev pub onto : List ℕ → List ℕ → List ℕ
onto [] ns = ns
onto (m ∷ ms) ns = onto ms (m ∷ ns)

free_newest :
    (address size : ℕ) (heap : Heap)
    → free address (record { start = address; size = size } ∷ heap) ≡ some heap
unfolding free
free_newest address size heap = rw (==_self address, free) refl

-- The blocks are freed from `cur_block` on.
arena_free-memory : (a : Arena) (old : Heap) → arena_free a (memory a ++ old) ≡ some old
unfolding arena_free
arena_free-memory [] old = refl
arena_free-memory (b ∷ bs) old =
    rw (free_newest b.address (sizeof_block + b.size) (memory bs ++ old)) (arena_free-memory bs old)

Apart-append :
    (rs ss : List Region) (r s : Region) → IsApart (rs ++ ss) → Mem r rs → Mem s ss → Apart r s
Apart-append [] ss r s apart m n = absurd m
Apart-append (q ∷ rs) ss r s (first, apart) (inl e) n =
    rw e (All-Mem (Apart q) (rs ++ ss) s first (Mem-append-back rs ss s n))
Apart-append (q ∷ rs) ss r s (first, apart) (inr m) n = Apart-append rs ss r s apart m n

-- A piece lies over nothing that the program had before.
old-Apart :
    (old : Heap) (pieces : List Region) (a : Arena) (heap : Heap) (p : Region)
    → IsArena old pieces a heap
    → Mem p pieces
    → All (Apart p) old
old-Apart old pieces a heap p h m = Mem-All _ old λ s n.
    let (r, k, within) = InArena-memory a p h.blocks (All-Mem _ pieces p h.inside m) in
    Apart-Within p s r s (Apart-append (memory a) old r s (subst IsApart h.owned h.apart) k n)
      within (omega arith)

module _ (malloc : Heap → ℕ → ℕ) (is_malloc : IsMalloc malloc) (old : Heap) where
  allocate-IsArena :
      (amounts : List ℕ) (pieces : List Region) (a : Arena) (heap : Heap)
      → All (λ n. sizeof_block + n < 2 ^ 64) amounts
      → IsArena old pieces a heap
      → Returns
          (λ (ps, a', heap'). IsArena old ps a' heap' × (sizes ps ≡ onto amounts (sizes pieces)))
          (allocate malloc amounts pieces a heap)
  unfolding allocate
  allocate-IsArena [] pieces a heap small h = (h, refl)
  allocate-IsArena (n ∷ ns) pieces a heap (small, smalls) h =
      Returns->>= (IsPiece old pieces n) _ (arena_malloc malloc n a heap) _
        (arena_malloc-IsPiece malloc is_malloc old pieces n a heap small h)
        λ (q, a', heap') (h', e). rw (← e) (allocate-IsArena ns (q ∷ pieces) a' heap' smalls h')

  -- From `arena_init` on, calls of `arena_malloc` give pieces of the sizes asked for. No piece lies
  -- over another one or over anything that the program had before, and `arena_free` then gives the
  -- heap back as it was: every block is freed, and none twice. Where `malloc` gives memory that is
  -- not in use, and always has some, and no size comes within the 24 bytes of `struct block` of
  -- overflow.
  pub allocate-arena_free :
      (amounts : List ℕ)
      → IsApart old
      → All (λ n. sizeof_block + n < 2 ^ 64) amounts
      → Returns
          (λ (pieces, a, heap).
            (sizes pieces ≡ onto amounts [])
            × IsApart pieces
            × All (λ p. All (Apart p) old) pieces
            × (arena_free a heap ≡ some old))
          (allocate malloc amounts [] arena_init old)
  allocate-arena_free amounts apart small =
      Returns-map (λ (ps, a, heap). IsArena old ps a heap × (sizes ps ≡ onto amounts [])) _
        (allocate malloc amounts [] arena_init old)
        (λ (pieces, a, heap) (h, e). (
          e,
          h.pieces_apart,
          Mem-All _ pieces λ p m. old-Apart old pieces a heap p h m,
          rw h.owned (arena_free-memory a old),
        ))
        (allocate-IsArena amounts [] arena_init old small
          (record { owned = refl; apart = apart; blocks = tt; inside = tt; pieces_apart = tt }))
