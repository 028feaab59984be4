-- ===== src/Userinfo/InMemory/Users.antt =====
-- The entries of users that src/userinfo.c makes, with their names in the memory block.
use mathlib.Core.List.{map, append_assoc, append-nil}
use mathlib.Core.Path.{ap₂}
use bindfs.Base.{
  ℕ, ◌+◌, ◌^◌, ◌<◌, ◌≡◌, refl, sym, ap, ◌∙◌, List, [], ◌∷◌, ◌++◌, All, length, length-append, arith,
}
use bindfs.Base.Int.{pos}
use bindfs.Base.Text.{Bytes}
use bindfs.Base.Maybe.{Returns, Returns->>=}
use bindfs.Misc.Memory.{
  MemoryBlock, Grown, block, aborted, stuck, grow_memory_block, appended, write_at_end,
  append_to_memory_block,
}
use bindfs.Misc.Memory.Growth.{IsGrown, grow_memory_block-IsGrown}
use bindfs.Userinfo.Cache.{UidCacheEntry, Passwd, to_int, uid_entries}
use bindfs.Userinfo.InMemory.{UidRecord, name_of, with_name, uid_records}
use bindfs.Userinfo.InMemory.Texts.{IsText, drop-append, c_string-append}

-- Every byte of a block has been written.
abbrev pub IsFilled : MemoryBlock → Type 0
IsFilled a = a.size ≡ length a.bytes

abbrev pub Grows : MemoryBlock → MemoryBlock → Type 0
Grows a b = (more : Bytes) × (b.bytes ≡ a.bytes ++ more)

pub Grows-trans : (a b c : MemoryBlock) → Grows a b → Grows b c → Grows a c
Grows-trans a b c (more, e) (rest, f) =
    (more ++ rest, f ∙ rw (e, append_assoc a.bytes more rest) refl)

pub to_int_small : (n : ℕ) → n < 2 ^ 31 → to_int (pos n) ≡ pos n
unfolding to_int
to_int_small n h = ground arith

pub IsGrown-block :
    (a : MemoryBlock) (size : ℕ) (g : Grown)
    → IsGrown a size g
    → size < 2 ^ 31
    → (b : MemoryBlock) × (g ≡ block b) × (b.size ≡ size) × (b.bytes ≡ a.bytes)
IsGrown-block a size (block b) (e, room, same) h = (b, refl, e, same)
IsGrown-block a size aborted big h = absurd (omega arith)
IsGrown-block a size stuck no_way h = absurd no_way

-- A small block never aborts.
append-appended :
    (a : MemoryBlock) (src : Bytes)
    → IsFilled a
    → a.size + length src < 2 ^ 31
    → (b : MemoryBlock) × (append_to_memory_block a src ≡ appended a.size b)
      × (b.bytes ≡ a.bytes ++ src)
      × IsFilled b
      × (b.size ≡ a.size + length src)
unfolding append_to_memory_block
append-appended a src filled small =
    let n = a.size + length src in
    let (b, e, size, same) =
      IsGrown-block a n (grow_memory_block a (length src))
        (grow_memory_block-IsGrown a (length src) (omega (arith, small))) small in
    (
      record b { bytes = b.bytes ++ src },
      ap (write_at_end a.size src) e,
      ap (λ cs. cs ++ src) same,
      omega (arith, size, filled, ap length same, length-append b.bytes src),
      size,
    )

-- The name of an entry stands in the block.
abbrev pub HasName : MemoryBlock → UidRecord → Bytes → Type 0
HasName a e name =
    (front : Bytes) × (rest : Bytes) × (a.bytes ≡ front ++ (name ++ (0 ∷ rest)))
    × (e.username_offset ≡ pos (length front))
    × IsText name

abbrev pub IsStored : MemoryBlock → UidRecord → Type 0
IsStored a e = (e.uid < 2 ^ 32) × ((name : Bytes) × HasName a e name)

pub name_of_lem :
    (a : MemoryBlock) (e : UidRecord) (name : Bytes) → HasName a e name → name_of a e ≡ name
name_of_lem a e name (front, rest, bytes, offset, text) =
    rw (offset, bytes, drop-append front (name ++ (0 ∷ rest))) (c_string-append name rest text)

pub HasName-Grows :
    (a b : MemoryBlock) (e : UidRecord) (name : Bytes)
    → Grows a b
    → HasName a e name
    → HasName b e name
HasName-Grows a b e name (more, grown) (front, rest, bytes, offset, text) = (
  front,
  rest ++ more,
  grown
      ∙ rw (bytes, append_assoc front (name ++ (0 ∷ rest)) more, append_assoc name (0 ∷ rest) more)
          refl,
  offset,
  text,
)

-- What an entry stands for.
abbrev pub user_of : MemoryBlock → UidRecord → UidCacheEntry
user_of a e = record { uid = e.uid; main_gid = e.main_gid; username = name_of a e }

-- The bytes that the names take.
abbrev pub name_room : List Passwd → ℕ
name_room [] = 0
name_room (pw ∷ pws) = length pw.pw_name + 1 + name_room pws

abbrev pub IsUser : Passwd → Type 0
IsUser pw = (pw.pw_uid < 2 ^ 32) × IsText pw.pw_name

user_of-eq :
    (a : MemoryBlock) (e : UidRecord) (pw : Passwd)
    → HasName a e pw.pw_name
    → (e.uid ≡ pw.pw_uid) × (e.main_gid ≡ pw.pw_gid)
    → user_of a e ≡ record { uid = pw.pw_uid; main_gid = pw.pw_gid; username = pw.pw_name }
user_of-eq a e pw named (id, gid) = rw (name_of_lem a e pw.pw_name named, id, gid) refl

abbrev pub AreUsers : MemoryBlock → List Passwd → List UidRecord × MemoryBlock → Type 0
AreUsers a pws (es, b) =
    (map (user_of b) es ≡ uid_entries pws)
    × All (IsStored b) es
    × IsFilled b
    × Grows a b
    × (b.size ≡ a.size + name_room pws)

-- One entry more, with its name at the end of the block.
abbrev IsAdded : MemoryBlock → Passwd → UidRecord × MemoryBlock → Type 0
IsAdded a pw (e, b) =
    HasName b e pw.pw_name
    × ((e.uid ≡ pw.pw_uid) × (e.main_gid ≡ pw.pw_gid))
    × IsFilled b
    × Grows a b
    × (b.size ≡ a.size + (length pw.pw_name + 1))

with_name-IsAdded :
    (a : MemoryBlock) (pw : Passwd)
    → IsFilled a
    → IsText pw.pw_name
    → a.size + (length pw.pw_name + 1) < 2 ^ 31
    → Returns (IsAdded a pw) (with_name pw (append_to_memory_block a (pw.pw_name ++ 0 ∷ [])))
with_name-IsAdded a pw filled text small =
    let src = pw.pw_name ++ 0 ∷ [] in
    let room : length src ≡ length pw.pw_name + 1 = length-append pw.pw_name (0 ∷ []) in
    let (b, e, bytes, filled', size) = append-appended a src filled (omega (arith, room, small)) in
    rw e (
      (a.bytes, [], bytes, to_int_small a.size (omega (arith, small)) ∙ ap pos filled, text),
      (refl, refl),
      filled',
      (src, bytes),
      omega (arith, size, room),
    )

-- All names can be read back when the last one has been written.
pub uid_records-AreUsers :
    (pws : List Passwd) (a : MemoryBlock)
    → IsFilled a
    → All IsUser pws
    → a.size + name_room pws < 2 ^ 31
    → Returns (AreUsers a pws) (uid_records pws a)
unfolding uid_records uid_entries
uid_records-AreUsers [] a filled users small =
    (refl, tt, filled, ([], sym (append-nil a.bytes)), omega arith)
uid_records-AreUsers (pw ∷ pws) a filled ((id, text), users) small =
    Returns->>= (IsAdded a pw) _ (with_name pw (append_to_memory_block a (pw.pw_name ++ 0 ∷ []))) _
      (with_name-IsAdded a pw filled text (omega (arith, small)))
      λ (e, b) (name, ids, filled', grown, size).
        Returns->>= (AreUsers b pws) _ (uid_records pws b) _
          (uid_records-AreUsers pws b filled' users (omega (arith, small, size)))
          λ (es, c) (same, stored, filled'', grown', size').
            let named = HasName-Grows b c e pw.pw_name grown' name in
            (
              ap₂ (λ d ds. d ∷ ds) (user_of-eq c e pw named ids) same,
              ((rw ids.0 id, (pw.pw_name, named)), stored),
              filled'',
              Grows-trans a b c grown grown',
              omega (arith, size, size'),
            )
