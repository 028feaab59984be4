-- ===== src/Tests/Groups.antt =====
-- The user cache of src/userinfo.c on two users and a group, and the theorems about it applied.
use bindfs.Base.{◌⊎◌, ◌↔◌}
use bindfs.Base.{
  ℕ, ◌↔◌, ◌≢◌, ap, ◌∙◌, ◌≡◌, refl, sym, Bool-cases, inl, inr, [], ◌∷◌, some, true, Mem, leb, ◌≤◌,
  if◌then◌else◌, arith,
}
use bindfs.Base.Int.{pos}
use bindfs.Base.Text.{Bytes, codes, bytes_eq}
use bindfs.Userinfo.Names.{Lookup, found, too_small, NameDb, user_uid}
use bindfs.Userinfo.Rounds.{IsLookup, user_uid_lem}
use bindfs.Misc.Memory.{MemoryBlock, grow_memory_block}
use bindfs.Misc.Memory.Growth.{IsGrown, grow_memory_block-IsGrown}
use bindfs.Userinfo.Cache.{Passwd, Cache, at_end, incomplete, Databases, user_belongs_to_group}
use bindfs.Base.Errors.{ok, enoent}
use bindfs.Fs.Settings.{Settings}
use bindfs.Fs.Os.{Os, Peers, fail}
use bindfs.Fs.Common.{is_mirrored_user}
use bindfs.Fs.Mirrored.{cached_peers, is_mirrored_user-Belongs}
use bindfs.Tests.World.{plain}
use bindfs.Userinfo.Spec.{IsSorting, Belongs}
use bindfs.Userinfo.Sorted.{IsFinding}
use bindfs.Userinfo.Complete.{IsProper, user_belongs_to_group_lem}
use bindfs.Tests.Sorting.{
  sort, search, compare_texts, search_finds, search_misses, sort-Mem, Mem-sort, sort-IsSorted,
  compare_texts_self, compare_texts_equal, compare_texts_total, compare_texts-not_above,
  compare_texts-below,
}

abbrev pub files : Databases
files = record {
  users =
      record { pw_name = codes "ann"; pw_uid = 1000; pw_gid = 100 }
      ∷ record { pw_name = codes "joe"; pw_uid = 1001; pw_gid = 100 }
      ∷ [];
  users_end = at_end;
  groups = record { gr_gid = 50; gr_mem = codes "bob" ∷ codes "joe" ∷ [] } ∷ [];
  groups_end = incomplete;
  strcmp = compare_texts;
  qsort = λ compar xs. sort compar xs;
  bsearch = λ compar key xs. search compar key xs;
}

pub files-IsSorting : IsSorting files
files-IsSorting = record {
  qsort_keeps = λ compar xs a h. sort-Mem compar xs a h;
  bsearch_finds = λ compar key xs a h. search_finds compar key xs a h;
  strcmp_equal = compare_texts_equal;
}

abbrev pub never_filled : Cache
never_filled = record { uid_cache = []; gid_cache = []; cache_rebuild_requested = true }

joe_in_50 : (user_belongs_to_group files 1001 50 never_filled).0 ≡ true
unfolding user_belongs_to_group bytes_eq
joe_in_50 = refl

pub files-IsFinding : IsFinding files
files-IsFinding = record {
  qsort_moves = λ compar xs a h. Mem-sort compar xs a h;
  qsort_sorts = λ compar xs order. sort-IsSorted compar xs order;
  bsearch_misses = λ compar key xs parts h. search_misses compar key xs h;
  strcmp_self = compare_texts_self;
  strcmp_total = compare_texts_total;
  strcmp_not_above = compare_texts-not_above;
  strcmp_below = compare_texts-below;
}

one_user : (a b : Passwd) → Mem a files.users → Mem b files.users → a.pw_uid ≡ b.pw_uid → a ≡ b
one_user a b m n e = ground (arith, m, n, e)

abbrev first_byte : Bytes → ℕ
first_byte [] = 0
first_byte (c ∷ cs) = c

ann_joe : codes "ann" ≢ codes "joe"
ann_joe h = omega (arith, ap first_byte h)

one_name : (a b : Passwd) → Mem a files.users → Mem b files.users → a.pw_name ≡ b.pw_name → a ≡ b
one_name a b (inl p) (inl q) e = p ∙ sym q
one_name a b (inl p) (inr (inl q)) e =
    absurd (ann_joe (ap (λ (d : Passwd). d.pw_name) (sym p) ∙ e ∙ ap (λ (d : Passwd). d.pw_name) q))
one_name a b (inr (inl p)) (inl q) e =
    absurd
      (ann_joe (ap (λ (d : Passwd). d.pw_name) (sym q) ∙ sym e ∙ ap (λ (d : Passwd). d.pw_name) p))
one_name a b (inr (inl p)) (inr (inl q)) e = p ∙ sym q
one_name a b (inr (inr m)) n e = absurd m
one_name a b (inl p) (inr (inr n)) e = absurd n
one_name a b (inr (inl p)) (inr (inr n)) e = absurd n

pub files-IsProper : IsProper files
files-IsProper = record {
  users_read = λ e. cc;
  groups_read = λ e. cc;
  small_uids = (omega arith, (omega arith, tt));
  small_gids = (omega arith, tt);
  one_user = one_user;
  one_name = one_name;
  one_group = λ a b m n e. ground (arith, m, n);
}

user_belongs_to_group_lem_example :
    ((user_belongs_to_group files 1001 50 never_filled).0 ≡ true) ↔ Belongs files 1001 50
user_belongs_to_group_lem_example =
    user_belongs_to_group_lem files files-IsSorting files-IsFinding files-IsProper never_filled 1001
      50 refl (omega arith) (omega arith)

-- An entry of 3000 bytes, which the third buffer holds.
abbrev long_entry : ℕ → Lookup
long_entry size = if leb 3000 size then found 1007 else too_small

abbrev slow : NameDb
slow = record {
  strtol = λ s. (pos 0, s);
  getpwnam_r = λ name size. long_entry size;
  getgrnam_r = λ name size. too_small;
  rounds = 8;
}

long_entry_enough : (n : ℕ) → 3000 ≤ n → long_entry n ≡ found 1007
long_entry_enough n h = ground arith

long_entry-IsLookup : IsLookup long_entry 3000 (found 1007)
long_entry-IsLookup = record {
  proper = λ e. cc;
  enough = long_entry_enough;
  steady =
      λ n. elim (Bool-cases (leb 3000 n)) [ inl e ↦ inl (rw e refl) | inr e ↦ inr (rw e refl) ];
}

user_uid_lem_example : user_uid slow (codes "ann") ≡ some 1007
user_uid_lem_example =
    user_uid_lem slow (codes "ann") 3000 (found 1007) refl long_entry-IsLookup (omega arith)

abbrev small_block : MemoryBlock
small_block = record { bytes = codes "ab"; size = 2; capacity = 3 }

grow_memory_block-IsGrown_example : IsGrown small_block 12 (grow_memory_block small_block 10)
grow_memory_block-IsGrown_example = grow_memory_block-IsGrown small_block 10 (omega arith)

-- An operating system whose state is the cache, and on which every call fails.
abbrev empty_os : Os
empty_os = record {
  State = Cache;
  realpath = λ a. fail enoent;
  lstat = λ a. fail enoent;
  access = λ a b. fail enoent;
  open_file = λ a b c. fail enoent;
  close = λ a. fail enoent;
  blkgetsize64 = λ fd c. (0, c);
  chown = λ a b c. fail enoent;
  lchown = λ a b c. fail enoent;
  chmod = λ a b. fail enoent;
  unlink = λ a. fail enoent;
  rmdir = λ a. fail enoent;
  opendir = λ a. fail enoent;
  closedir = fail enoent;
  filler = λ a b. fail enoent;
  readlink = λ a b. fail enoent;
  mkfifo = λ a b. fail enoent;
  mknod = λ a b c. fail enoent;
  mkdir = λ a b. fail enoent;
  symlink = λ a b. fail enoent;
  rename = λ a b. fail enoent;
  renameat2 = λ a b c. fail enoent;
  link = λ a b. fail enoent;
  truncate = λ a b. fail enoent;
  utimensat = λ a b c. fail enoent;
  mmap = λ a. fail enoent;
  munmap = λ a b. fail enoent;
  pread = λ a b c d. fail enoent;
  pwrite = λ a b c d. fail enoent;
  lock = λ a b c. fail enoent;
  flock = λ a b. fail enoent;
  ioctl = λ a b c. fail enoent;
  statvfs = λ a. fail enoent;
  fsync = λ a. fail enoent;
  fdatasync = λ a. fail enoent;
  lsetxattr = λ a b c d. fail enoent;
  lgetxattr = λ a b c. fail enoent;
  llistxattr = λ a b. fail enoent;
  lremovexattr = λ a b. fail enoent;
}

abbrev no_peers : Peers Cache
no_peers = record {
  wait_for_read = λ size. fail enoent;
  wait_for_write = λ size. fail enoent;
  user_belongs_to_group = λ uid gid. fail enoent;
}

abbrev group_mirrored : Settings
group_mirrored = record plain { mirrored_members = 50 ∷ [] }

joe_mirrored :
    (c : Cache) × (is_mirrored_user empty_os
        (cached_peers files files-IsSorting empty_os no_peers (λ c. c) (λ c s. c) (λ c s. refl))
        group_mirrored
        1001
        never_filled
      ≡ (ok true, c))
unfolding is_mirrored_user user_belongs_to_group bytes_eq
joe_mirrored = (_, refl)

is_mirrored_user-Belongs_example :
    Mem 1001 group_mirrored.mirrored_users
    ⊎ ((g : ℕ) × Mem g group_mirrored.mirrored_members × Belongs files 1001 g)
is_mirrored_user-Belongs_example =
    is_mirrored_user-Belongs files files-IsSorting empty_os no_peers (λ c. c) (λ c s. c)
      (λ c s. refl) group_mirrored 1001 (omega arith, (omega arith, tt)) (omega arith, tt)
      (omega arith) never_filled (omega arith, tt) (inl refl) joe_mirrored.1
