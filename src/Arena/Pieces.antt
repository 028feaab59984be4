-- ===== src/Arena/Pieces.antt =====
-- What `arena_malloc` and `arena_free` of src/arena.c do to the arena and to the heap.
use mathlib.Core.Path.{subst}
use bindfs.Base.{
  ℕ, ◌+◌, ◌^◌, ◌%◌, ◌≤◌, ◌<◌, ◌≡◌, ◌≢◌, refl, ap, inl, inr, List, [], ◌∷◌, ◌++◌, false, Bool-cases,
  All, Mem, All-Mem, Mem-All, ltb, if◌then◌else◌, ==_ne, arith,
}
use bindfs.Base.Maybe.{Returns, Returns->>=}
use bindfs.Arena.{
  Region, Heap, Block, Arena, sizeof_block, min_block_room, with_block, lacks_room, take_piece,
  add_block, arena_malloc,
}
use bindfs.Arena.Apart.{
  Apart, Within, Apart-Within, IsApart, memory_of, handed_out, memory, InArena, IsBlock, IsArena,
  IsMalloc,
}

-- What is left in the first block.
room_left :
    (b : Block) (amount : ℕ)
    → IsBlock b
    → lacks_room (b ∷ []) amount ≡ false
    → b.used + amount ≤ b.size
room_left b amount (within, small) h = ground arith

-- A piece lies in memory of the arena.
pub InArena-memory :
    (a : Arena) (p : Region)
    → All IsBlock a
    → InArena a p
    → (r : Region) × Mem r (memory a) × Within p r
InArena-memory [] p blocks h = absurd h
InArena-memory (b ∷ bs) p (block, blocks) (inl h) = (memory_of b, inl refl, omega arith)
InArena-memory (b ∷ bs) p (block, blocks) (inr h) =
    let (r, m, within) = InArena-memory bs p blocks h in (r, inr m, within)

All-append-front : {A : Type 0} (P : A → Type 0) (xs ys : List A) → All P (xs ++ ys) → All P xs
All-append-front P [] ys h = tt
All-append-front P (x ∷ xs) ys (first, rest) = (first, All-append-front P xs ys rest)

-- A larger part of a block has been handed out.
InArena-grown :
    (b c : Block) (bs : Arena) (p : Region)
    → Within (handed_out b) (handed_out c)
    → InArena (b ∷ bs) p
    → InArena (c ∷ bs) p
InArena-grown b c bs p w (inl h) = inl (omega arith)
InArena-grown b c bs p w (inr h) = inr h

abbrev FirstHolds : ℕ → Arena → Type 0
FirstHolds amount [] = ⊥
FirstHolds amount (b ∷ bs) = b.used + amount ≤ b.size

-- What a call of `arena_malloc` gives.
abbrev pub IsPiece : Heap → List Region → ℕ → Region × Arena × Heap → Type 0
IsPiece old pieces amount (q, a, heap) = IsArena old (q ∷ pieces) a heap × (q.size ≡ amount)

module _ (old : Heap) (pieces : List Region) where
  piece-Apart :
      (b : Block) (bs : Arena) (q p : Region)
      → IsApart (memory (b ∷ bs) ++ old)
      → All IsBlock (b ∷ bs)
      → b.address + sizeof_block + b.used ≤ q.start
      → q.start + q.size ≤ b.address + sizeof_block + b.size
      → InArena (b ∷ bs) p
      → Apart q p
  piece-Apart b bs q p apart blocks from to (inl h) = inr (omega arith)
  piece-Apart b bs q p (first, apart) (block, blocks) from to (inr h) =
      let (r, m, within) = InArena-memory bs p blocks h in
      Apart-Within q p (memory_of b) r
        (All-Mem (Apart (memory_of b)) (memory bs) r (All-append-front _ (memory bs) old first) m)
        (omega arith) within

  take_piece-IsPiece :
      (amount : ℕ) (a : Arena) (heap : Heap)
      → IsArena old pieces a heap
      → FirstHolds amount a
      → Returns (IsPiece old pieces amount) (take_piece amount a heap)
  take_piece-IsPiece amount [] heap h room = absurd room
  take_piece-IsPiece amount (b ∷ bs) heap h room =
      let sum : (b.used + amount) % 2 ^ 64 ≡ b.used + amount = omega (arith, h.blocks.0) in
      let c : Block = record b { used = (b.used + amount) % 2 ^ 64 } in
      let q : Region = record { start = b.address + sizeof_block + b.used; size = amount } in
      (
        record {
          owned = h.owned;
          apart = h.apart;
          blocks = (omega (arith, sum, h.blocks.0), h.blocks.1);
          inside = (
            inl (omega (arith, sum)),
            Mem-All _ pieces
                λ p m. InArena-grown b c bs p (omega (arith, sum)) (All-Mem _ pieces p h.inside m),
          );
          pieces_apart = (
            Mem-All _ pieces λ p m.
                piece-Apart b bs q p (subst IsApart h.owned h.apart) h.blocks (omega arith)
                  (omega arith) (All-Mem _ pieces p h.inside m),
            h.pieces_apart,
          );
        },
        refl,
      )

  with_block-IsArena :
      (a : Arena) (heap : Heap) (address room amount : ℕ)
      → address ≢ 0
      → All (Apart (record { start = address; size = sizeof_block + room })) heap
      → sizeof_block + room < 2 ^ 64
      → amount ≤ room
      → IsArena old pieces a heap
      → Returns
          (λ (a', heap'). IsArena old pieces a' heap' × FirstHolds amount a')
          (with_block a heap address (sizeof_block + room) room)
  with_block-IsArena a heap address room amount ne unused small fits h = rw (==_ne address 0 ne) (
    record {
      owned = ap (λ rs. record { start = address; size = sizeof_block + room } ∷ rs) h.owned;
      apart = (unused, h.apart);
      blocks = (omega arith, h.blocks);
      inside = Mem-All _ pieces λ p m. inr (All-Mem _ pieces p h.inside m);
      pieces_apart = h.pieces_apart;
    },
    omega (arith, fits),
  )

module _ (malloc : Heap → ℕ → ℕ) (is_malloc : IsMalloc malloc) (old : Heap) where
  add_block-IsArena :
      (pieces : List Region) (amount : ℕ) (a : Arena) (heap : Heap)
      → sizeof_block + amount < 2 ^ 64
      → IsArena old pieces a heap
      → Returns
          (λ (a', heap'). IsArena old pieces a' heap' × FirstHolds amount a')
          (add_block malloc amount a heap)
  unfolding add_block
  add_block-IsArena pieces amount a heap small h =
      let room = if ltb amount min_block_room then min_block_room else amount in
      let fits : amount ≤ room = ground arith in
      let bounded : sizeof_block + room < 2 ^ 64 = ground (arith, small) in
      let whole : (sizeof_block + room) % 2 ^ 64 ≡ sizeof_block + room = omega (arith, bounded) in
      rw whole (
        with_block-IsArena old pieces a heap (malloc heap (sizeof_block + room)) room amount
          (is_malloc.not_null heap (sizeof_block + room))
          (is_malloc.unused heap (sizeof_block + room)) bounded fits h)

  holds_of_room :
      (amount : ℕ) (a : Arena) → All IsBlock a → lacks_room a amount ≡ false → FirstHolds amount a
  holds_of_room amount [] blocks h = cc
  holds_of_room amount (b ∷ bs) (block, blocks) h = room_left b amount block h

  -- Each call gives a piece of the size asked for, which lies in the arena and over no other.
  pub arena_malloc-IsPiece :
      (pieces : List Region) (amount : ℕ) (a : Arena) (heap : Heap)
      → sizeof_block + amount < 2 ^ 64
      → IsArena old pieces a heap
      → Returns (IsPiece old pieces amount) (arena_malloc malloc amount a heap)
  unfolding arena_malloc
  arena_malloc-IsPiece pieces amount a heap small h = elim (Bool-cases (lacks_room a amount)) [
    | inl e ↦ rw e (
        Returns->>= _ (IsPiece old pieces amount) (add_block malloc amount a heap) _
          (add_block-IsArena pieces amount a heap small h)
          λ (a', heap') (h', room). take_piece-IsPiece old pieces amount a' heap' h' room)
    | inr e ↦
        rw e (take_piece-IsPiece old pieces amount a heap h (holds_of_room amount a h.blocks e))
  ]
