-- ===== src/Misc/Argv/Copied.antt =====
-- The arguments that `dup_argv` of src/misc.c has copied, in memory.
use bindfs.Base.{
  ℕ, ◌+◌, ◌*◌, ◌^◌, ◌≤◌, ◌<◌, ◌≡◌, ◌⊎◌, refl, ◌∙◌, inl, inr, List, [], ◌∷◌, ◌++◌, All, All-Mem, Mem,
  length, length-append, arith,
}
use bindfs.Base.Maybe.{Returns, Returns->>=, Returns-map}
use bindfs.Base.Text.{Bytes}
use bindfs.Arena.{Region, Heap, Arena, sizeof_block, arena_malloc}
use bindfs.Arena.Apart.{Apart, InArena, IsArena, IsBlock, IsMalloc}
use bindfs.Arena.Pieces.{IsPiece, arena_malloc-IsPiece}
use bindfs.Misc.Argv.{Memory, write_bytes, pointer_bytes, dup_args, dup_argv}
use bindfs.Misc.Argv.Held.{Holds, write_bytes_outside, write_bytes-Holds, Holds-same}

-- A list of pointers to the arguments, each of some kind, with a null pointer at its end.
abbrev pub HoldsArgv : (ℕ → Type 0) → Memory → ℕ → List Bytes → Type 0
HoldsArgv P mem address [] = Holds mem address (pointer_bytes 0)
HoldsArgv P mem address (arg ∷ args) =
    ((p : ℕ) × P p × Holds mem address (pointer_bytes p) × Holds mem p (arg ++ 0 ∷ []))
    × HoldsArgv P mem (address + 8) args

pub HoldsArgv-map :
    {P Q : ℕ → Type 0} (mem : Memory) (address : ℕ) (args : List Bytes)
    → ((p : ℕ) → P p → Q p)
    → HoldsArgv P mem address args
    → HoldsArgv Q mem address args
HoldsArgv-map mem address [] f h = h
HoldsArgv-map mem address (arg ∷ args) f ((p, kind, at, text), rest) =
    ((p, f p kind, at, text), HoldsArgv-map mem (address + 8) args f rest)

-- The start of a piece that is not empty.
abbrev pub StartsPiece : Arena → ℕ → Type 0
StartsPiece a p = (q : Region) × (q.start ≡ p) × (1 ≤ q.size) × InArena a q

-- Nothing in some pieces changes but between two addresses.
abbrev KeepsOutside : List Region → ℕ → ℕ → Memory → Memory → Type 0
KeepsOutside pieces from to mem mem' =
    (p : Region) (k : ℕ)
    → Mem p pieces
    → p.start ≤ k
    → k < p.start + p.size
    → (k < from) ⊎ (to ≤ k)
    → mem' k ≡ mem k

-- The writes of one round: the text to its piece, the pointer to its place in the list.
abbrev round : Memory → ℕ → ℕ → Bytes → Memory
round mem next_ptr str arg =
    write_bytes (write_bytes mem str (arg ++ 0 ∷ [])) next_ptr (pointer_bytes str)

round_outside :
    (mem : Memory) (next_ptr str : ℕ) (arg : Bytes) (k : ℕ)
    → (k < next_ptr) ⊎ (next_ptr + 8 ≤ k)
    → (k < str) ⊎ (str + (length arg + 1) ≤ k)
    → round mem next_ptr str arg k ≡ mem k
round_outside mem next_ptr str arg k outside apart =
    let size : length (arg ++ 0 ∷ []) ≡ length arg + 1 = length-append arg (0 ∷ []) in
    write_bytes_outside (pointer_bytes str) (write_bytes mem str (arg ++ 0 ∷ [])) next_ptr k outside
    ∙ write_bytes_outside (arg ++ 0 ∷ []) mem str k (rw size apart)

Apart-sym : (r s : Region) → Apart r s → Apart s r
Apart-sym r s (inl h) = inr h
Apart-sym r s (inr h) = inl h

-- Addresses in one piece are outside of a part of the other.
beside :
    (q list : Region) (k from to : ℕ)
    → Apart q list
    → q.start ≤ k
    → k < q.start + q.size
    → list.start ≤ from
    → to ≤ list.start + list.size
    → (k < from) ⊎ (to ≤ k)
beside q list k from to (inl h) lo hi low high = inl (omega arith)
beside q list k from to (inr h) lo hi low high = inr (omega arith)

within_bounds :
    (k from from' to to' : ℕ)
    → from ≤ from'
    → to' ≤ to
    → (k < from) ⊎ (to ≤ k)
    → (k < from') ⊎ (to' ≤ k)
within_bounds k from from' to to' low high (inl h) = inl (omega arith)
within_bounds k from from' to to' low high (inr h) = inr (omega arith)

round-Holds :
    (mem : Memory) (next_ptr : ℕ) (q list : Region) (arg : Bytes)
    → Apart q list
    → q.size ≡ length arg + 1
    → list.start ≤ next_ptr
    → next_ptr + 8 ≤ list.start + list.size
    → Holds (round mem next_ptr q.start arg) q.start (arg ++ 0 ∷ [])
round-Holds mem next_ptr q list arg apart size from to =
    let text = arg ++ 0 ∷ [] in
    let room : length text ≡ q.size = omega (arith, size, length-append arg (0 ∷ [])) in
    Holds-same text (write_bytes mem q.start text) (round mem next_ptr q.start arg) q.start
      (λ k lo hi.
        write_bytes_outside (pointer_bytes q.start) (write_bytes mem q.start text) next_ptr k
          (beside q list k next_ptr (next_ptr + 8) apart lo (omega (arith, hi, room)) from to))
      (write_bytes-Holds text mem q.start)

module _ (malloc : Heap → ℕ → ℕ) (is_malloc : IsMalloc malloc) (old : Heap) where
  abbrev IsCopied : List Region → List Bytes → ℕ → ℕ → Memory → Arena × Heap × Memory → Type 0
  IsCopied pieces args from to mem (a, heap, mem') =
      HoldsArgv (StartsPiece a) mem' from args
      × KeepsOutside pieces from to mem mem'
      × All (InArena a) pieces
      × All IsBlock a

  -- What one round and the rounds behind it leave.
  IsCopied-round :
      (arg : Bytes) (args : List Bytes) (pieces : List Region) (list q : Region) (next_ptr : ℕ)
      (a : Arena) (heap : Heap) (mem : Memory) (x : Arena × Heap × Memory)
      → IsArena old (q ∷ pieces) a heap
      → q.size ≡ length arg + 1
      → Mem list pieces
      → list.start ≤ next_ptr
      → next_ptr + 8 ≤ list.start + list.size
      → IsCopied
          (q ∷ pieces)
          args
          (next_ptr + 8)
          (list.start + list.size)
          (round mem next_ptr q.start arg)
          x
      → IsCopied pieces (arg ∷ args) next_ptr (list.start + list.size) mem x
  IsCopied-round arg args pieces list q next_ptr a heap mem (c, hp, mem') h size m from to
        (rest, keeps, inside, blocks) =
      let apart : Apart q list = All-Mem (Apart q) pieces list h.pieces_apart.0 m in
      let room : length (arg ++ 0 ∷ []) ≡ q.size =
        omega (arith, size, length-append arg (0 ∷ [])) in
      (
        (
          (
            q.start,
            (q, refl, omega (arith, size), inside.0),
            Holds-same (pointer_bytes q.start) (round mem next_ptr q.start arg) mem' next_ptr
                (λ k lo hi. keeps list k (inr m) (omega arith) (omega arith) (inl (omega arith)))
                (write_bytes-Holds (pointer_bytes q.start) _ next_ptr),
            Holds-same (arg ++ 0 ∷ []) (round mem next_ptr q.start arg) mem' q.start
                (λ k lo hi. keeps q k (inl refl) lo (omega (arith, hi, room)) (
                  beside q list k (next_ptr + 8) (list.start + list.size) apart lo
                    (omega (arith, hi, room)) (omega arith) (omega arith)))
                (round-Holds mem next_ptr q list arg apart size from to),
          ),
          rest,
        ),
        λ p k n lo hi outside.
            keeps p k (inr n) lo hi
              (within_bounds k next_ptr (next_ptr + 8) _ _ (omega arith) (omega arith) outside)
            ∙ round_outside mem next_ptr q.start arg k
                (within_bounds k next_ptr next_ptr _ (next_ptr + 8) (omega arith) to outside)
                (beside p q k q.start (q.start + (length arg + 1))
                  (Apart-sym q p (All-Mem (Apart q) pieces p h.pieces_apart.0 n)) lo hi
                  (omega arith) (omega (arith, size))),
        inside.1,
        blocks,
      )

  dup_args-IsCopied :
      (args : List Bytes) (pieces : List Region) (list : Region) (next_ptr : ℕ) (a : Arena)
      (heap : Heap) (mem : Memory)
      → IsArena old pieces a heap
      → Mem list pieces
      → list.start ≤ next_ptr
      → next_ptr + 8 * (length args + 1) ≤ list.start + list.size
      → All (λ arg. sizeof_block + (length arg + 1) < 2 ^ 64) args
      → Returns
          (IsCopied pieces args next_ptr (list.start + list.size) mem)
          (dup_args malloc args next_ptr a heap mem)
  unfolding dup_args
  dup_args-IsCopied [] pieces list next_ptr a heap mem h m from to small = (
    write_bytes-Holds (pointer_bytes 0) mem next_ptr,
    λ p k n lo hi outside. write_bytes_outside (pointer_bytes 0) mem next_ptr k (
        within_bounds k next_ptr next_ptr _ (next_ptr + 8) (omega arith) (omega (arith, to))
          outside),
    h.inside,
    h.blocks,
  )
  dup_args-IsCopied (arg ∷ args) pieces list next_ptr a heap mem h m from to (fits, small) =
      Returns->>= (IsPiece old pieces (length arg + 1)) _
        (arena_malloc malloc (length arg + 1) a heap) _
        (arena_malloc-IsPiece malloc is_malloc old pieces (length arg + 1) a heap fits h)
        λ (q, a', heap') (h', size).
          Returns-map _ _
            (dup_args malloc args (next_ptr + 8) a' heap' (round mem next_ptr q.start arg))
            (λ x.
              IsCopied-round arg args pieces list q next_ptr a' heap' mem x h' size m from
                (omega (arith, to)))
            (dup_args-IsCopied args (q ∷ pieces) list (next_ptr + 8) a' heap'
              (round mem next_ptr q.start arg) h' (inr m) (omega arith) (omega (arith, to)) small)

  -- What `dup_argv` leaves: a list that holds the arguments, in memory that the arena has given for
  -- them, and the pieces given before as they were.
  abbrev pub IsDuplicate : List Bytes → List Region → Memory → ℕ × Arena × Heap × Memory → Type 0
  IsDuplicate argv pieces mem (list, a', heap', mem') =
      HoldsArgv (StartsPiece a') mem' list argv
      × ((p : Region) (k : ℕ) → Mem p pieces → p.start ≤ k → k < p.start + p.size → mem' k ≡ mem k)
      × All IsBlock a'

  pub dup_argv-IsDuplicate :
      (argv : List Bytes) (pieces : List Region) (a : Arena) (heap : Heap) (mem : Memory)
      → IsArena old pieces a heap
      → sizeof_block + (length argv + 1) * 8 < 2 ^ 64
      → All (λ arg. sizeof_block + (length arg + 1) < 2 ^ 64) argv
      → Returns (IsDuplicate argv pieces mem) (dup_argv malloc argv a heap mem)
  unfolding dup_argv
  dup_argv-IsDuplicate argv pieces a heap mem h fits small =
      let amount = (length argv + 1) * 8 in
      Returns->>= (IsPiece old pieces amount) _ (arena_malloc malloc amount a heap) _
        (arena_malloc-IsPiece malloc is_malloc old pieces amount a heap fits h)
        λ (list, a', heap') (h', size).
          Returns->>= (IsCopied (list ∷ pieces) argv list.start (list.start + list.size) mem) _
            (dup_args malloc argv list.start a' heap' mem) _
            (dup_args-IsCopied argv (list ∷ pieces) list list.start a' heap' mem h' (inl refl)
              (omega arith) (omega (arith, size)) small)
            λ (a'', heap'', mem') (copied, keeps, inside, blocks). (
              copied,
              λ p k n lo hi. keeps p k (inr n) lo hi (
                  beside p list k list.start (list.start + list.size)
                    (Apart-sym list p (All-Mem (Apart list) pieces p h'.pieces_apart.0 n)) lo hi
                    (omega arith) (omega arith)),
              blocks,
            )
