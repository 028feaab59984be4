-- ===== src/Userinfo/InMemory.antt =====
-- The cache of users and groups of src/userinfo.c as it lies in memory: names and ids of members in
-- `cache_memory_block`, and the offsets of both in the entries.
pub mod Texts
pub mod Users
pub mod Groups
pub mod Members
pub mod Refines
use mathlib.Core.List.{map}
use bindfs.Base.{
  ℕ, zero, suc, ◌+◌, ◌*◌, ◌/◌, ◌%◌, List, [], ◌∷◌, ◌++◌, Option, none, some, Bool, true, false,
  ◌==◌, if◌then◌else◌, length, take, drop,
}
use bindfs.Base.Int.{ℤ, pos, negsuc, sub_ℕ}
use bindfs.Base.Maybe.{◌>>=◌}
use bindfs.Base.Text.{Bytes}
use bindfs.Misc.Memory.{
  MemoryBlock, init_memory_block, Grown, block, aborted, stuck, grow_memory_block, Appended,
  appended, append_aborted, append_stuck, append_to_memory_block,
}
use bindfs.Userinfo.Cache.{Passwd, Group, Databases, to_int, has_uid, unless_error}

-- `struct uid_cache_entry` and `struct gid_cache_entry`.
pub record UidRecord : Type 0 where
  pub uid : ℕ
  pub main_gid : ℕ
  pub username_offset : ℤ

pub record GidRecord : Type 0 where
  pub gid : ℕ
  pub uid_count : ℕ
  pub uids_offset : ℤ

pub record Tables : Type 0 where
  pub uid_cache : List UidRecord
  pub gid_cache : List GidRecord
  pub cache_memory_block : MemoryBlock

-- `MEMORY_BLOCK_GET`: what has been written from an offset on.
abbrev pub memory_block_get : MemoryBlock → ℤ → Bytes
memory_block_get a (pos offset) = drop offset a.bytes
memory_block_get a (negsuc n) = []

-- A C string, as far as it is written.
unfoldable pub c_string : Bytes → Bytes
c_string [] = []
c_string (c ∷ cs) = let rest = c_string cs in if c == 0 then [] else c ∷ rest

abbrev pub name_of : MemoryBlock → UidRecord → Bytes
name_of a e = c_string (memory_block_get a e.username_offset)

-- A `uid_t` in memory has four bytes.
abbrev pub word_bytes : ℕ → Bytes
word_bytes n = n % 256 ∷ n / 256 % 256 ∷ n / 65536 % 256 ∷ n / 16777216 % 256 ∷ []

unfoldable pub read_words : ℕ → Bytes → List ℕ
read_words zero bs = []
read_words (suc n) (a ∷ b ∷ c ∷ d ∷ bs) = (a + 256 * b + 65536 * c + 16777216 * d) ∷ read_words n bs
read_words (suc n) bs = []

abbrev pub uids_of : MemoryBlock → GidRecord → List ℕ
uids_of a g = read_words g.uid_count (memory_block_get a g.uids_offset)

abbrev pub write_at : Bytes → ℕ → Bytes → Bytes
write_at bytes offset src = take offset bytes ++ (src ++ drop (offset + length src) bytes)

abbrev pub with_name : Passwd → Appended → Option (UidRecord × MemoryBlock)
with_name pw (appended offset a) =
    some
      (record { uid = pw.pw_uid; main_gid = pw.pw_gid; username_offset = to_int (pos offset) }, a)
with_name pw append_aborted = none
with_name pw append_stuck = none

-- The loop of `rebuild_uid_cache`.
unfoldable pub uid_records : List Passwd → MemoryBlock → Option (List UidRecord × MemoryBlock)
unfolding append_to_memory_block to_int
uid_records [] a = some ([], a)
uid_records (pw ∷ pws) a =
    with_name pw (append_to_memory_block a (pw.pw_name ++ 0 ∷ [])) >>= λ (e, a').
    uid_records pws a' >>= λ (es, a''). some (e ∷ es, a'')

-- The write to `uids[uid_count++]`; an offset below 0 is outside of the block.
abbrev pub write_uid : ℕ → GidRecord → ℤ → Grown → Option (GidRecord × MemoryBlock)
write_uid uid g (pos offset) (block a) = some (
  record g { uid_count = g.uid_count + 1 },
  record a { bytes = write_at a.bytes (offset + 4 * g.uid_count) (word_bytes uid) },
)
write_uid uid g (negsuc n) (block a) = none
write_uid uid g offset aborted = none
write_uid uid g offset stuck = none

unfoldable pub store_uid : ℕ → GidRecord → MemoryBlock → Option (GidRecord × MemoryBlock)
unfolding grow_memory_block
store_uid uid g a = write_uid uid g g.uids_offset (grow_memory_block a 4)

abbrev pub has_main_gid : Option UidRecord → ℕ → Bool
has_main_gid none gid = false
has_main_gid (some e) gid = e.main_gid == gid

unfoldable pub has_member : MemoryBlock → Option GidRecord → ℕ → Bool
unfolding has_uid read_words
has_member a none uid = false
has_member a (some g) uid = has_uid (uids_of a g) uid

module _ (sys : Databases) where
  -- The loop over `gr_mem`.
  unfoldable pub store_members :
      List UidRecord → List Bytes → GidRecord → MemoryBlock → Option (GidRecord × MemoryBlock)
  unfolding store_uid c_string
  store_members users [] g a = some (g, a)
  store_members users (name ∷ names) g a =
      elim (sys.bsearch (λ k e. sys.strcmp k (name_of a e)) name users) [
        | none ↦ store_members users names g a
        | some e ↦ store_uid e.uid g a >>= λ (g', a'). store_members users names g' a'
      ]

  -- The loop of `rebuild_gid_cache`.
  unfoldable pub gid_records :
      List UidRecord → List Group → MemoryBlock → Option (List GidRecord × MemoryBlock)
  unfolding store_members to_int
  gid_records users [] a = some ([], a)
  gid_records users (gr ∷ grs) a =
      store_members users gr.gr_mem
        (record { gid = gr.gr_gid; uid_count = 0; uids_offset = to_int (pos a.size) }) a
      >>= λ (g, a'). gid_records users grs a' >>= λ (gs, a''). some (g ∷ gs, a'')

  -- `init_user_cache`, where the cache has to be filled.
  unfoldable pub fill_tables : Option Tables
  unfolding uid_records gid_records init_memory_block
  fill_tables = uid_records sys.users (init_memory_block 1024) >>= λ (es, a).
      let sorted =
        sys.qsort (λ d e. sys.strcmp (name_of a d) (name_of a e)) (unless_error sys.users_end es) in
      gid_records sorted sys.groups a >>= λ (gs, a'). some (record {
        uid_cache = sys.qsort (λ d e. to_int (sub_ℕ d.uid e.uid)) sorted;
        gid_cache = sys.qsort (λ d e. to_int (sub_ℕ d.gid e.gid)) (unless_error sys.groups_end gs);
        cache_memory_block = a';
      })

  -- The lookups of `user_belongs_to_group`.
  unfoldable pub tables_answer : Tables → ℕ → ℕ → Bool
  unfolding has_member to_int
  tables_answer t uid gid =
      if has_main_gid (sys.bsearch (λ k e. to_int (sub_ℕ k e.uid)) uid t.uid_cache) gid
      then true
      else has_member t.cache_memory_block
          (sys.bsearch (λ k g. to_int (sub_ℕ k g.gid)) gid t.gid_cache) uid
