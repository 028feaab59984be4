-- ===== src/Userinfo/InMemory/Groups.antt =====
-- The entries of groups that src/userinfo.c makes, with the ids of members in the memory block.
use mathlib.Core.List.{map, append_assoc, append-nil}
use mathlib.Core.Option
use bindfs.Base.{
  ℕ, ◌+◌, ◌*◌, ◌^◌, ◌≤◌, ◌<◌, ◌≡◌, refl, ap, ◌∙◌, List, [], ◌∷◌, ◌++◌, All, All-append, length,
  length-append, arith,
}
use bindfs.Base.Int.{ℤ, pos}
use bindfs.Base.Text.{Bytes}
use bindfs.Base.Maybe.{Returns}
use bindfs.Misc.Memory.{MemoryBlock, grow_memory_block}
use bindfs.Misc.Memory.Growth.{grow_memory_block-IsGrown}
use bindfs.Userinfo.Cache.{Databases}
use bindfs.Userinfo.InMemory.{GidRecord, word_bytes, uids_of, write_at, store_uid}
use bindfs.Userinfo.InMemory.Texts.{
  drop-append, words, read_words-words, words-append, length-words, write_at-length,
}
use bindfs.Userinfo.InMemory.Users.{IsFilled, Grows, IsGrown-block}

-- `qsort` and `bsearch` know the elements of an array by what the comparison says of them.
pub record IsUniform (sys : Databases) : Type 1 where
  pub qsort_map :
      {A B : Type 0} (f : A → B) (compar : B → B → ℤ) (xs : List A)
      → map f (sys.qsort (λ a b. compar (f a) (f b)) xs) ≡ sys.qsort compar (map f xs)
  pub bsearch_map :
      {K A B : Type 0} (f : A → B) (compar : K → B → ℤ) (key : K) (xs : List A)
      → Option.map f (sys.bsearch (λ k a. compar k (f a)) key xs)
        ≡ sys.bsearch compar key (map f xs)

-- The ids of an entry stand in the block, as far as they have been written.
abbrev pub HasUids : MemoryBlock → GidRecord → List ℕ → Bytes → Type 0
HasUids a g uids rest =
    (front : Bytes) × (a.bytes ≡ front ++ (words uids ++ rest))
    × (g.uids_offset ≡ pos (length front))
    × (g.uid_count ≡ length uids)
    × All (λ n. n < 2 ^ 32) uids

pub uids_of_lem :
    (a : MemoryBlock) (g : GidRecord) (uids : List ℕ) (rest : Bytes)
    → HasUids a g uids rest
    → uids_of a g ≡ uids
uids_of_lem a g uids rest (front, bytes, offset, count, small) =
    rw (offset, count, bytes, drop-append front (words uids ++ rest))
      (read_words-words uids rest small)

-- What adding ids to an entry leaves.
abbrev pub IsExtended : MemoryBlock → GidRecord → List ℕ → ℕ → GidRecord × MemoryBlock → Type 0
IsExtended a g uids room (g', b) =
    HasUids b g' uids [] × (g'.gid ≡ g.gid) × IsFilled b × Grows a b × (b.size ≤ a.size + room)

pub store_uid-IsExtended :
    (a : MemoryBlock) (g : GidRecord) (uids : List ℕ) (uid : ℕ)
    → IsFilled a
    → HasUids a g uids []
    → uid < 2 ^ 32
    → a.size + 4 < 2 ^ 31
    → Returns (IsExtended a g (uids ++ uid ∷ []) 4) (store_uid uid g a)
unfolding store_uid
store_uid-IsExtended a g uids uid filled (front, bytes, offset, count, small) id room =
    let (b, e, size, same) =
      IsGrown-block a (a.size + 4) (grow_memory_block a 4)
        (grow_memory_block-IsGrown a 4 (omega (arith, room))) room in
    let whole : a.bytes ≡ front ++ words uids =
      bytes ∙ ap (λ x. front ++ x) (append-nil (words uids)) in
    let end : length front + 4 * g.uid_count ≡ length b.bytes = omega (
      arith,
      ap length whole,
      ap length same,
      length-append front (words uids),
      length-words uids,
      count,
    ) in
    let written : write_at b.bytes (length front + 4 * g.uid_count) (word_bytes uid)
        ≡ a.bytes ++ word_bytes uid =
      rw (end, write_at-length b.bytes (word_bytes uid), same) refl in
    rw (e, offset)
      (
        (
          front,
          written
              ∙ rw
                  (
                    whole,
                    words-append uids (uid ∷ []),
                    append-nil (words uids ++ words (uid ∷ [])),
                    append_assoc front (words uids) (word_bytes uid),
                  )
                  refl,
          refl,
          omega (arith, count, length-append uids (uid ∷ [])),
          All-append (λ n. n < 2 ^ 32) uids (uid ∷ []) small (id, tt),
        ),
        refl,
        omega (arith, size, filled, ap length written, length-append a.bytes (word_bytes uid)),
        (word_bytes uid, written),
        omega (arith, size),
      )
